-- ===== src/Chain/ParsePush.antt =====
-- internal/chain/parsepush.go, parsePush and parsePushInto: the body of a push, parsed into the
-- action. What was written to the action before a failure stays written.
use git_proxy_go.Base.{
  ℕ, ◌||◌, not, Option, none, some, List, [], ◌∷◌, ◌++◌, Str, codes, ltb, leb, if◌then◌else◌,
  is_empty, length, take, drop, contains, before, split, trim_space, str_eq, get_last?, Result, ok,
  err, ◌>>=◌,
}
use git_proxy_go.Model.{CommitData, Step, pack_meta}
use git_proxy_go.Host.{Host}
use git_proxy_go.Pack.PktLine.{packet_size, parse_packet_lines}
use git_proxy_go.Pack.Objects.{PackMeta, get_pack_meta, decompress_git_objects}
use git_proxy_go.Pack.Commit.{empty_commit_hash, get_commit_data}
use git_proxy_go.Chain.Action.{Action, new_step, set_error, set_content, set_commit, set_branch}
use git_proxy_go.Chain.Context.{Processor, finish}

-- The lines that hold "refs/heads/".
unfoldable pub ref_updates : List Str → List Str
ref_updates [] = []
ref_updates (l ∷ lines) =
    let rest = ref_updates lines in if contains l (codes "refs/heads/") then l ∷ rest else rest

pub record RefUpdate : Type 0 where
  pub old_commit : Str
  pub new_commit : Str
  pub ref : Str

single_update : List Str → Result Str
single_update (l ∷ []) = ok l
single_update _ =
    err (codes "your push has been blocked. Please make sure you are pushing to a single branch")

three_parts : List Str → Result RefUpdate
three_parts (old ∷ new ∷ ref ∷ []) = ok (record { old_commit = old; new_commit = new; ref = ref })
three_parts _ = err (codes "your push has been blocked. Invalid ref update format")

-- The only branch update of the push, up to its NUL.
unfoldable pub ref_update : List Str → Result RefUpdate
unfolding single_update three_parts
ref_update lines = single_update (ref_updates lines) >>= λ l. three_parts (split b' ' (before 0 l))

-- The bytes from PACK on.
unfoldable pub pack_data : Str → ℕ → Result Str
pack_data body offset =
    if leb (length body) offset
    then err (codes "your push has been blocked. PACK data is missing")
    else let buf = drop offset body in
      if ltb (length buf) packet_size || not (str_eq (take packet_size buf) (codes "PACK"))
      then err (codes "your push has been blocked. Invalid PACK data structure")
      else ok buf

-- The branch, commit range and id.
unfoldable pub record_update : Action → RefUpdate → Action
record_update a u =
    set_commit (set_branch a (trim_space (before 0 u.ref))) u.old_commit u.new_commit

-- The commits, and the last one's committer as the user.
unfoldable pub record_commits : Action → List CommitData → Action
record_commits a commits = elim (get_last? commits) [
  | none ↦ record a { push = record a.push { commit_data = commits } }
  | some c ↦ record a {
    push = record a.push {
      commit_data = commits;
      commit_from = if str_eq a.commit_from empty_commit_hash then c.parent else a.commit_from;
      user = c.committer;
      user_email = c.committer_email;
    };
  }
]

-- The ref update of a body, and the offset behind the flush packet.
unfoldable pub read_update : Str → Result (ℕ × RefUpdate)
read_update body = do p ← parse_packet_lines body; u ← ref_update p.0; ok (p.1, u)

module _ (h : Host) where
  -- From PACK on: the header and the commits.
  unfoldable pub parse_pack : Str → ℕ → Result (PackMeta × List CommitData)
  parse_pack body offset = do
    buf ← pack_data body offset
    p ← get_pack_meta buf
    objects ← decompress_git_objects h.zlib p.1 p.0.entries
    commits ← get_commit_data h.quote objects
    ok (p.0, commits)

  abbrev pub body_of : Option Str → Str
  body_of none = []
  body_of (some b) = b

  -- The action behind the parse, and its result.
  unfoldable pub parse_push_into : Option Str → Action → Action × Result PackMeta
  unfolding read_update record_update record_commits parse_pack
  parse_push_into raw_body a =
      let body = body_of raw_body in
      if is_empty body
      then (a, err (codes "no body found in request"))
      else elim (read_update body) [
        | err e ↦ (a, err e)
        | ok (offset, u) ↦
            let a' = record_update a u in
            elim (parse_pack body offset) [
              | err e ↦ (a', err e)
              | ok (meta, commits) ↦ (record_commits a' commits, ok meta)
            ]
      ]

  unfoldable pub parse_step : Result PackMeta → Step
  parse_step (ok meta) = set_content (new_step (codes "parsePackFile")) (pack_meta meta)
  parse_step (err e) =
      set_error (new_step (codes "parsePackFile"))
        (codes "Unable to parse push. Please contact an administrator for support: " ++ e)

  unfoldable pub parse_push : Processor h
  unfolding parse_push_into parse_step
  parse_push w r a =
      let (a', parsed) = parse_push_into r.raw_body a in finish w a' (parse_step parsed)
