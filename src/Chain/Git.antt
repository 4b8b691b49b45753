-- ===== src/Chain/Git.antt =====
-- internal/git/engine.go: the git binary, and go-git's clone.
use git_proxy_go.Base.{
  ℕ, ◌&&◌, Option, none, some, List, ◌++◌, Str, codes, is_empty, join, if◌then◌else◌, Result, ok,
  err,
}
use git_proxy_go.Host.{Host}

module _ (h : Host) where
  -- `%v` of the arguments prints them between brackets.
  unfoldable pub run : h.World → Str → Option Str → List Str → h.World × Result Str
  run w dir stdin args =
      let (w', out, failure) = h.exec_git w dir stdin args in
      (
        w',
        elim failure [
          | none ↦ ok out
          | some e ↦ err (
              codes "git ["
              ++ (join (codes " ") args ++ (codes "]: " ++ (e ++ (codes ": " ++ out)))))
        ],
      )

  unfoldable pub clone : h.World → Str → Str → Str → Str → ℕ → h.World × Option Str
  clone w url dir username password depth =
      let auth =
        if is_empty username && is_empty password then none else some (username, password) in
      let (w', failure) = h.plain_clone w dir url auth depth in
      (
        w',
        elim failure [
          | none ↦ none
          | some e ↦ some (codes "git clone " ++ (url ++ (codes ": " ++ e)))
        ],
      )

  unfoldable pub clone_ssh : h.World → Str → Str → Str → h.Credentials → ℕ → h.World × Option Str
  clone_ssh w url dir user credentials depth =
      let name = if is_empty user then codes "git" else user in
      let (w', failure) = h.plain_clone_ssh w dir url name credentials depth in
      (
        w',
        elim failure [
          | none ↦ none
          | some e ↦ some (codes "git clone (ssh) " ++ (url ++ (codes ": " ++ e)))
        ],
      )
