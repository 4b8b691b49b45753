-- ===== src/Chain/Gate.antt =====
-- check_if_waiting_auth.go and block_for_auth.go, with serviceUIURL of chain.go: the two steps
-- that decide between a push that was authorised before and one that waits for a review.
use git_proxy_go.Base.{
  Bool, ◌&&◌, not, Option, none, some, [], ◌∷◌, ◌++◌, Str, codes, if◌then◌else◌, is_empty,
  replace_first, ok, err,
}
use git_proxy_go.Model.{Push}
use git_proxy_go.Host.{Host}
use git_proxy_go.Chain.Config.{Config}
use git_proxy_go.Chain.Action.{Action, new_step, set_error, set_async_block, set_allow_push}
use git_proxy_go.Chain.Context.{Request, Store, Settings, Processor, finish}

-- An authorised record replaces the push and is allowed.
unfoldable pub adopt : Action → Option Push → Action
adopt a none = a
adopt a (some existing) =
    if not a.error && existing.authorised then set_allow_push (record a { push = existing }) else a

abbrev or_empty : Option Str → Str
or_empty none = []
or_empty (some s) = s

abbrev service_of : Option Config → Str
service_of none = []
service_of (some c) = elim c.domains [ none ↦ [] | some d ↦ or_empty d.service ]

abbrev swap_port : Str → Str → Str → Str
swap_port base from to =
    if not (is_empty from) && not (is_empty to)
    then replace_first (codes ":" ++ from) (codes ":" ++ to) base
    else base

-- The scheme, from the connection or from the proxy in front.
abbrev scheme_of : Bool → Str → Str
scheme_of has_tls forwarded =
    if not (is_empty forwarded) then forwarded else if has_tls then codes "https" else codes "http"

module _ (h : Host) (store : Store) (settings : Settings) (db : store.State) where
  unfoldable pub check_if_waiting_auth : Processor h
  unfolding adopt
  check_if_waiting_auth w r a =
      let step = new_step (codes "checkIfWaitingAuth") in
      elim (store.get_push db a.id) [
        | err e ↦ finish w a (set_error step e)
        | ok existing ↦ finish w (adopt a existing) step
      ]

  unfoldable pub service_ui_url : Request h.Credentials → Str
  service_ui_url r =
      let service = service_of settings.config in
      if not (is_empty service)
      then service
      else swap_port
          (scheme_of r.has_tls (r.header (codes "X-Forwarded-Proto")) ++ (codes "://" ++ r.host))
          settings.proxy_port settings.ui_port

  -- The escape byte is 27, and the two signs stand as their UTF-8 bytes.
  unfoldable pub review_message : Str → Str → Str
  review_message url id =
      codes "\n\n\n"
      ++ (27 ∷ codes "[32mGitProxy has received your push "
          ++ (0xe2 ∷ 0x9c ∷ 0x85 ∷ 27 ∷ codes "[0m\n\n"
              ++ (0xf0 ∷ 0x9f ∷ 0x94 ∷ 0x97 ∷ codes " Shareable Link\n\n"
                  ++ (27 ∷ codes "[34m"
                      ++ (url ++ (codes "/dashboard/push/" ++ (id ++ (27 ∷ codes "[0m\n\n\n"))))))))

  unfoldable pub block_for_auth : Processor h
  block_for_auth w r a =
      finish w a
        (set_async_block (new_step (codes "authBlock")) (review_message (service_ui_url r) a.id))
