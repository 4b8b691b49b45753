-- ===== src/Auth/Login/Callback.antt =====
-- Who a session belongs to behind the callback of an OIDC login.
use git_proxy_go.Base.{
  ◌≡◌, refl, ap, ◌∙◌, arith, ◌⊎◌, inl, inr, Bool, true, false, not, ◌&&◌, Option, none, some, [],
  ◌∷◌, Str, codes, is_empty, if◌then◌else◌, str_eq, str_eq_iff, Result, err, ok, Bool-cases,
}
use git_proxy_go.Model.{User}
use git_proxy_go.Db.Interface.{DbStore}
use git_proxy_go.Api.Context.{Reply, failure}
use git_proxy_go.Auth.Oidc.{Provider, exchange}
use git_proxy_go.Auth.Login.Laws.{SessionLaws, session_user, renewed_lem}
use git_proxy_go.Auth.Login.{
  Sessions, key_username, key_oidc_state, state_matches, oidc_done, callback_code, oidc_callback,
}

keys_differ : str_eq key_oidc_state key_username ≡ false
unfolding str_eq
keys_differ = refl

both_parts : (a b c : Bool) → (not a && not b && c) ≡ true → (b ≡ false) × (c ≡ true)
both_parts a b c h = ground arith

module _ (sessions : Sessions) (laws : SessionLaws sessions) (store : DbStore) where
  oidc_done_cases :
      (landing : Str) (s : sessions.Session) (d : store.State) (found : Result (Option User))
      → (session_user sessions laws (oidc_done sessions store landing s (d, found)).1
          ≡ session_user sessions laws s)
        ⊎ ((user : User) × (found ≡ ok (some user))
            × (session_user sessions laws (oidc_done sessions store landing s (d, found)).1
                ≡ user.username))
  unfolding oidc_done
  oidc_done_cases landing s d (err e) = inl refl
  oidc_done_cases landing s d (ok none) = inl refl
  oidc_done_cases landing s d (ok (some user)) =
      elim (renewed_lem sessions laws s user.username _) [
        | inl kept ↦ inl kept
        | inr set ↦ inr (user, refl, set)
      ]

  callback_code_cases :
      (p : Provider) (landing : Str) (d : store.State) (s : sessions.Session) (code : Str)
      → (session_user sessions laws (callback_code sessions store p landing d s code).1
          ≡ session_user sessions laws s)
        ⊎ ((user : User) × ((exchange store p d code).1 ≡ ok (some user))
            × (session_user sessions laws (callback_code sessions store p landing d s code).1
                ≡ user.username))
  unfolding callback_code
  callback_code_cases p landing d s [] = inl refl
  callback_code_cases p landing d s (c ∷ code) =
      oidc_done_cases landing s (exchange store p d (c ∷ code)).0 (exchange store p d (c ∷ code)).1

  state_matches-true :
      (s : sessions.Session) (got : Str)
      → state_matches sessions s got ≡ true
      → (is_empty got ≡ false) × (sessions.get_string s key_oidc_state ≡ got)
  unfolding state_matches
  state_matches-true s got h =
      let (full, same) = both_parts _ _ _ h in (full, (str_eq_iff _ got).0 same)

  removed_user :
      (s : sessions.Session)
      → session_user sessions laws (sessions.remove s key_oidc_state) ≡ session_user sessions laws s
  removed_user s = laws.get_remove s key_oidc_state key_username keys_differ

  -- Where the callback of an OIDC login changes the session's user, the state that the browser brings
  -- back is not "" and is that of the session, and the session's user is the one to whom the
  -- exchange of the code leads.
  pub oidc_callback_verified :
      (p : Provider) (landing : Str) (d : store.State) (s : sessions.Session) (got code : Str)
      → (session_user sessions laws (oidc_callback sessions store p landing d s got code).1
          ≡ session_user sessions laws s)
        ⊎ ((is_empty got ≡ false)
            × (sessions.get_string s key_oidc_state ≡ got)
            × ((user : User) × ((exchange store p d code).1 ≡ ok (some user))
                × (session_user sessions laws
                      (oidc_callback sessions store p landing d s got code).1
                    ≡ user.username)))
  unfolding oidc_callback
  oidc_callback_verified p landing d s got code = elim (Bool-cases (state_matches sessions s got)) [
    | inr other ↦ inl (ap (λ e. session_user sessions laws (choose e).1) other)
    | inl match ↦
        let (full, same) = state_matches-true s got match in
        let chosen = ap (λ e. session_user sessions laws (choose e).1) match in
        elim (callback_code_cases p landing d (sessions.remove s key_oidc_state) code) [
          | inl kept ↦ inl (chosen ∙ kept ∙ removed_user s)
          | inr (user, found, set) ↦ inr (full, same, (user, found, chosen ∙ set))
        ]
  ]
    where
      choose : Bool → store.State × sessions.Session × Reply
      choose e =
          if e
          then callback_code sessions store p landing d (sessions.remove s key_oidc_state) code
          else (d, s, failure 400 (codes "invalid OIDC state"))
