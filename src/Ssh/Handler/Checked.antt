-- ===== src/Ssh/Handler/Checked.antt =====
-- The bytes of a push over SSH that reach the upstream host went through the chain.
use git_proxy_go.Base.{
  ◌≡◌, refl, sym, ap, ◌∙◌, arith, inl, inr, false, ◌||◌, Option, some, [], ◌∷◌, Str, Bool-cases,
  Option-cases, Result, err, ok,
}
use git_proxy_go.Host.{Host}
use git_proxy_go.Chain.Context.{Store, Settings}
use git_proxy_go.Chain.Engine.{Executed, execute}
use git_proxy_go.Chain.Approval.{is_refused}
use git_proxy_go.Ssh.Request.{RemoteSession, GitRequest, read_pack}
use git_proxy_go.Ssh.Handler.{
  stop, relay_end, after_push_chain, push_request, with_pack, with_advertisement, with_push_session,
}

pub none_not_some {ℓ} : {A : Type ℓ} {a : A} → ¬ (Option.none ≡ some a)
none_not_some h = cc

some-injective {ℓ} : {A : Type ℓ} {a b : A} → Option.some a ≡ some b → a ≡ b
some-injective h = cc

module _ (h : Host) (store : Store) (settings : Settings) where
  -- The bytes went through the chain as the body of a push, and the action was not refused.
  abbrev pub Checked : store.State → h.World → GitRequest h.Credentials → Str → Type 0
  Checked db w r b =
      (creds : h.Credentials) × (read_pack r.input ≡ ok b)
      × (is_refused (execute h store settings db w (push_request h store settings r creds b)).action
          ≡ false)

  after_push_chain-passed :
      (sess : RemoteSession) (caps pack b : Str) (x : Executed store.State h.World)
      → (after_push_chain h store settings sess caps pack x).upstream_input ≡ some b
      → (is_refused x.action ≡ false) × (pack ≡ b)
  unfolding after_push_chain stop relay_end is_refused
  after_push_chain-passed sess caps pack b x e =
      elim (Bool-cases (x.action.error || x.action.blocked)) [
        | inl refused ↦ absurd (ground arith)
        | inr fine ↦ elim (Option-cases (sess.write_error pack)) [
          | inl written ↦ (fine, ground arith)
          | inr (m, failed) ↦ (fine, ground arith)
        ]
      ]

  with_pack-Checked :
      (db : store.State) (w : h.World) (r : GitRequest h.Credentials) (creds : h.Credentials)
      (sess : RemoteSession) (caps b : Str) (read : Result Str)
      → read_pack r.input ≡ read
      → (with_pack h store settings db w r creds sess caps read).upstream_input ≡ some b
      → Checked db w r b
  unfolding with_pack stop
  with_pack-Checked db w r creds sess caps b (err m) p e = absurd (none_not_some e)
  with_pack-Checked db w r creds sess caps b (ok []) p e = absurd (none_not_some e)
  with_pack-Checked db w r creds sess caps b (ok (c ∷ pack)) p e =
      let (fine, same) = after_push_chain-passed sess caps (c ∷ pack) b _ e in
      (
        creds,
        p ∙ ap ok same,
        ap
              (λ t.
                is_refused
                  (execute h store settings db w (push_request h store settings r creds t)).action)
              (sym same)
            ∙ fine,
      )

  with_advertisement-Checked :
      (db : store.State) (w : h.World) (r : GitRequest h.Credentials) (creds : h.Credentials)
      (sess : RemoteSession) (b : Str) (read : Result (Str × Str))
      → (with_advertisement h store settings db w r creds sess read).upstream_input ≡ some b
      → Checked db w r b
  unfolding with_advertisement stop
  with_advertisement-Checked db w r creds sess b (err m) e = absurd (none_not_some e)
  with_advertisement-Checked db w r creds sess b (ok (caps, rest)) e =
      elim (Option-cases (r.channel_error caps)) [
        | inl sent ↦ with_pack-Checked db w r creds sess caps b _ refl (ground (arith, e, sent))
        | inr (m, failed) ↦ absurd (ground arith)
      ]

  pub with_push_session-Checked :
      (db : store.State) (w : h.World) (r : GitRequest h.Credentials) (creds : h.Credentials)
      (b : Str) (run : Result RemoteSession)
      → (with_push_session h store settings db w r creds run).upstream_input ≡ some b
      → Checked db w r b
  unfolding with_push_session stop
  with_push_session-Checked db w r creds b (err m) e = absurd (none_not_some e)
  with_push_session-Checked db w r creds b (ok sess) e =
      with_advertisement-Checked db w r creds sess b _ e
