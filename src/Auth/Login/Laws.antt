-- ===== src/Auth/Login/Laws.antt =====
-- Who a session belongs to behind a login.
use git_proxy_go.Base.{
  ◌≡◌, refl, sym, ap, ◌∙◌, ◌⊎◌, inl, inr, Bool, true, false, Option, none, some, Str, codes,
  if◌then◌else◌, str_eq, Result, err, ok, Bool-cases, ◌>>=◌,
}
use git_proxy_go.Model.{User}
use git_proxy_go.Db.Interface.{DbStore}
use git_proxy_go.Api.Context.{Reply, failure}
use git_proxy_go.Api.Review.Stored.{ok-injective}
use git_proxy_go.Auth.Registry.{Registry, Bcrypt, verified, verified_by, authenticate}
use git_proxy_go.Auth.Login.{Sessions, key_username, renewed, establish, log_in, login}

-- What alexedwards/scs documents: a new token keeps the session's values, also where it fails, and a
-- value that is put under a key is read back under it, and the removal of a key leaves the others.
pub record SessionLaws (sessions : Sessions) : Type 0 where
  pub get_put :
      (s : sessions.Session) (key value : Str)
      → sessions.get_string (sessions.put s key value) key ≡ value
  pub get_remove :
      (s : sessions.Session) (key other : Str)
      → str_eq key other ≡ false
      → sessions.get_string (sessions.remove s key) other ≡ sessions.get_string s other
  pub get_renew :
      (s : sessions.Session) (key : Str)
      → sessions.get_string (sessions.renew_token s).0 key ≡ sessions.get_string s key

some-injective {ℓ} : {A : Type ℓ} {a b : A} → Option.some a ≡ some b → a ≡ b
some-injective h = cc

none_not_some {ℓ} : {A : Type ℓ} {a : A} → ¬ (Option.none ≡ some a)
none_not_some h = cc

if_some {ℓ} :
    {A : Type ℓ} (b : Bool) (x : A) {a : A}
    → (if b then some x else none) ≡ some a
    → (b ≡ true) × (x ≡ a)
if_some true x h = (refl, some-injective h)
if_some false x h = absurd (none_not_some h)

module _ (b : Bcrypt) (store : DbStore) where
  -- The user is stored with a hash that the password has.
  abbrev pub HasPassword : store.State → Str → Str → User → Type 0
  HasPassword d username password user =
      (hash : Str) × (store.find_user d username ≡ ok (some user))
      × (user.password ≡ some hash)
      × (b.check_password hash password ≡ true)

  verified_by-some :
      (password : Str) (u user : User) (stored : Option Str)
      → verified_by b store password u stored ≡ some user
      → (hash : Str) × (stored ≡ some hash) × (b.check_password hash password ≡ true) × (u ≡ user)
  unfolding verified_by
  verified_by-some password u user none h = absurd (none_not_some h)
  verified_by-some password u user (some hash) h =
      let (checked, e) = if_some _ u h in (hash, refl, checked, e)

  verified-some :
      (d : store.State) (username password : Str) (found : Result (Option User)) (user : User)
      → store.find_user d username ≡ found
      → (found >>= λ f. ok (verified b store password f)) ≡ ok (some user)
      → HasPassword d username password user
  unfolding verified
  verified-some d username password (err e) user f h = cc
  verified-some d username password (ok none) user f h = absurd (none_not_some (ok-injective h))
  verified-some d username password (ok (some u)) user f h =
      let (hash, stored, checked, e) =
        verified_by-some password u user u.password (ok-injective h) in
      (hash, f ∙ ap (λ x. ok (some x)) e, sym (ap (λ x. x.password) e) ∙ stored, checked)

abbrev disabled : Reply
disabled = failure 403 (codes "Username and Password based Login is not enabled at this time")

module _ (sessions : Sessions) (laws : SessionLaws sessions) where
  -- The user of a session, "" where nobody is logged in.
  abbrev pub session_user : sessions.Session → Str
  session_user s = sessions.get_string s key_username

  renewed_cases :
      (username : Str) (reply : Reply) (x : sessions.Session × Option Str)
      → (session_user (renewed sessions username reply x).0 ≡ session_user x.0)
        ⊎ (session_user (renewed sessions username reply x).0 ≡ username)
  unfolding renewed
  renewed_cases username reply (s, some e) = inl refl
  renewed_cases username reply (s, none) = inr (laws.get_put s key_username username)

  pub renewed_lem :
      (s : sessions.Session) (username : Str) (reply : Reply)
      → (session_user (renewed sessions username reply (sessions.renew_token s)).0 ≡ session_user s)
        ⊎ (session_user (renewed sessions username reply (sessions.renew_token s)).0 ≡ username)
  renewed_lem s username reply = elim (renewed_cases username reply (sessions.renew_token s)) [
    | inl kept ↦ inl (kept ∙ laws.get_renew s key_username)
    | inr set ↦ inr set
  ]

  establish_cases :
      (s : sessions.Session) (r : Result (Option User))
      → (session_user (establish sessions s r).0 ≡ session_user s)
        ⊎ ((user : User) × (r ≡ ok (some user))
            × (session_user (establish sessions s r).0 ≡ user.username))
  unfolding establish
  establish_cases s (err e) = inl refl
  establish_cases s (ok none) = inl refl
  establish_cases s (ok (some user)) = elim (renewed_lem s user.username _) [
    | inl kept ↦ inl kept
    | inr set ↦ inr (user, refl, set)
  ]

  module _ (store : DbStore) where
    log_in_cases :
        (b : Bcrypt) (d : store.State) (s : sessions.Session) (credentials : Option (Str × Str))
        → (session_user (log_in sessions store b d s credentials).0 ≡ session_user s)
          ⊎ ((username : Str) × (password : Str) × (user : User) × (credentials
                ≡ some (username, password))
              × HasPassword b store d username password user
              × (session_user (log_in sessions store b d s credentials).0 ≡ user.username))
    unfolding log_in authenticate
    log_in_cases b d s none = inl refl
    log_in_cases b d s (some (username, password)) =
        elim (establish_cases s (authenticate b store d username password)) [
          | inl kept ↦ inl kept
          | inr (user, found, set) ↦ inr (
            username,
            password,
            user,
            refl,
            verified-some b store d username password (store.find_user d username) user refl found,
            set,
          )
        ]

    -- A request to log in leaves the session's user as it is, or: the local strategy is enabled, the
    -- request has a name and a password, the store finds a user by that name with a hash that the
    -- password has, and the session's user is that user's name.
    pub login_verified :
        (b : Bcrypt) (registry : Registry) (d : store.State) (s : sessions.Session)
        (credentials : Option (Str × Str))
        → (session_user (login sessions store b registry d s credentials).0 ≡ session_user s)
          ⊎ ((registry.login ≡ true)
              × ((username : Str) × (password : Str) × (user : User) × (credentials
                    ≡ some (username, password))
                  × HasPassword b store d username password user
                  × (session_user (login sessions store b registry d s credentials).0
                      ≡ user.username)))
    unfolding login
    login_verified b registry d s credentials = elim (Bool-cases registry.login) [
      | inr off ↦ inl (
          ap
            (λ e.
              session_user (if e then log_in sessions store b d s credentials else (s, disabled)).0)
            off)
      | inl on ↦
          let same =
            ap
              (λ e.
                session_user
                  (if e then log_in sessions store b d s credentials else (s, disabled)).0)
              on in
          elim (log_in_cases b d s credentials) [
            | inl kept ↦ inl (same ∙ kept)
            | inr (username, password, user, e, known, set) ↦
                inr (on, (username, password, user, e, known, same ∙ set))
          ]
    ]
