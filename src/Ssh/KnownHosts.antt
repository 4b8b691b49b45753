-- ===== src/Ssh/KnownHosts.antt =====
-- internal/proxy/ssh/knownhosts.go: the host keys that the proxy accepts of an upstream host.
use git_proxy_go.Base.{Option, none, some, List, [], ◌∷◌, ◌++◌, Str, codes, str_eq, if◌then◌else◌}

-- A map from hosts to fingerprints, with one entry for each host.
unfoldable pub put_host : Str → Str → List (Str × Str) → List (Str × Str)
put_host host fp [] = (host, fp) ∷ []
put_host host fp ((h, old) ∷ hosts) =
    if str_eq h host then (host, fp) ∷ hosts else (h, old) ∷ put_host host fp hosts

unfoldable pub fingerprint_of : List (Str × Str) → Str → Option Str
fingerprint_of [] host = none
fingerprint_of ((h, fp) ∷ hosts) host = if str_eq h host then some fp else fingerprint_of hosts host

abbrev pub default_host_fingerprints : List (Str × Str)
default_host_fingerprints =
    (codes "github.com", codes "SHA256:+DiY3wvvV6TuJJhbpZisF/zLDA0zPMSvHdkr4UvCOqU")
    ∷ (codes "gitlab.com", codes "SHA256:eUXGGm1YGsMAS7vkcx6JOJdOGHPem5gQp4taiCfCLB8")
    ∷ []

merge : List (Str × Str) → List (Str × Str) → List (Str × Str)
merge hosts [] = hosts
merge hosts ((host, fp) ∷ custom) = merge (put_host host fp hosts) custom

-- `custom` is a map: each host stands in it once.
unfoldable pub new_known_hosts : List (Str × Str) → List (Str × Str)
unfolding put_host merge
new_known_hosts custom = merge default_host_fingerprints custom

module _ (quote : Str → Str) where
  unfoldable pub judged : Str → Str → Option Str → Option Str
  judged host fingerprint none = some (
      codes "host key verification failed: unknown host "
      ++ (quote host ++ codes " (add its SHA256 host-key fingerprint to the known hosts)"))
  judged host fingerprint (some expected) =
      if str_eq fingerprint expected
      then none
      else some (
          codes "host key verification failed for "
          ++ (quote host
              ++ (codes ": expected "
                  ++ (expected
                      ++ (codes ", got "
                          ++ (fingerprint ++ codes " (possible man-in-the-middle)"))))))

  -- The error, if any.
  unfoldable pub verify : List (Str × Str) → Str → Str → Option Str
  unfolding fingerprint_of judged
  verify hosts host fingerprint = judged host fingerprint (fingerprint_of hosts host)
