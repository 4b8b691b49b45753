-- ===== src/Auth/Csrf.antt =====
-- internal/proxy/http/csrf.go: the double-submit check of a request's token.
use git_proxy_go.Base.{
  ◌≡◌, ◌↔◌, arith, Bool, true, false, not, ◌||◌, Option, none, some, Str, codes, is_empty,
  if◌then◌else◌, str_eq, str_eq_iff, str_eq_refl, sym, ap, ◌∙◌,
}
use git_proxy_go.Api.Review.Laws.{if_refused}
use git_proxy_go.Api.Context.{failure, Guarded, refuse, pass}

unfoldable pub is_safe_method : Str → Bool
is_safe_method method =
    str_eq method (codes "GET")
    || str_eq method (codes "HEAD")
    || str_eq method (codes "OPTIONS")
    || str_eq method (codes "TRACE")

-- The method, the value of the csrf cookie ("" where there is none), the X-CSRF-TOKEN header and a new
-- random token. A request that is handed on comes with the token of the cookie that is set, if any.
unfoldable pub csrf_protection : Str → Str → Str → Str → Guarded (Option Str)
unfolding is_safe_method
csrf_protection method token header fresh =
    if is_safe_method method
    then pass (if is_empty token then some fresh else none)
    else if is_empty token || is_empty header || not (str_eq token header)
    then refuse (failure 403 (codes "invalid CSRF token"))
    else pass none

parts_false : (a b c : Bool) → (a || b || not c) ≡ false → (a ≡ false) × (b ≡ false) × (c ≡ true)
parts_false a b c h = ground arith

differs : Str → Str → Bool
differs token header = is_empty token || is_empty header || not (str_eq token header)

differs_iff :
    (token header : Str)
    → (differs token header ≡ false) ↔ ((token ≡ header) × (is_empty header ≡ false))
unfolding differs
differs_iff token header = (
  λ h. let (_, full, same) = parts_false _ _ _ h in ((str_eq_iff token header).0 same, full),
  λ h.
      ap (λ t. is_empty t || is_empty header || not (str_eq t header)) h.0
      ∙ ap (λ b. b || b || not (str_eq header header)) h.1
      ∙ ap not (str_eq_refl header),
)

-- A request whose method is not safe is handed on exactly when its header is the value of its cookie and
-- is not "".
pub csrf_protection_unsafe :
    (method token header fresh : Str)
    → is_safe_method method ≡ false
    → (csrf_protection method token header fresh ≡ pass none)
      ↔ ((token ≡ header) × (is_empty header ≡ false))
unfolding csrf_protection differs
csrf_protection_unsafe method token header fresh h =
    let forbidden = failure 403 (codes "invalid CSRF token") in
    let unsafe =
      ap
        (λ b.
          if b
          then pass (if is_empty token then some fresh else none)
          else if differs token header
          then refuse forbidden
          else pass none)
        h in
    (
      λ e.
          (differs_iff token header).0
            (if_refused (differs token header) forbidden (pass none) (sym unsafe ∙ e)).0,
      λ e.
          unsafe
          ∙ ap (λ b. if b then refuse forbidden else pass none) ((differs_iff token header).1 e),
    )
