-- ===== src/Tests/Loader.antt =====
-- A configuration that is loaded, and the environment.
use git_proxy_go.Base.{
  ◌≡◌, refl, true, Option, none, some, List, [], ◌∷◌, ◌++◌, Str, codes, ok, err, str_eq,
  if◌then◌else◌, contains, join, has_prefix, cut, map,
}
use git_proxy_go.Model.{Step}
use git_proxy_go.Host.{Host, Regexp}
use git_proxy_go.Chain.Config.{Config, as_text}
use git_proxy_go.Chain.Checks.{compiled_rules, email_rules, is_message_allowed}
use git_proxy_go.Chain.ScanDiff.{DiffMatcher, diff_matchers, quote_meta}
use git_proxy_go.Settings.Env.{load_server_env, parse_known_hosts}
use git_proxy_go.Settings.Validate.{required_top_level_keys}
use git_proxy_go.Settings.Load.{
  AppConfig, Loader, present, load_file, load, tls_key_path, tls_cert_path,
}
use git_proxy_go.Settings.Compiled.{Flags, has_text_patterns}
use git_proxy_go.Settings.Loaded.{load_file_compiled, diff_block_of}
use git_proxy_go.Db.Tables.{order_by, where_rows, find, update_where}
use git_proxy_go.Db.Interface.{DbStore, sqlite}
use git_proxy_go.Db.Repos
use git_proxy_go.Startup.{AuthorisedRepo, proxied_hosts, seed_authorised_repos}
use git_proxy_go.Tests.Api.{db, store}
use git_proxy_go.Tests.Fixture.{test_host, test_store, test_settings}

-- Every text but "(" is an expression, which finds itself.
abbrev literal_of : Str → Regexp
literal_of p = record { match_string = λ s. contains s p; find_all = λ s. [] }

abbrev literal_host : Host
literal_host = record test_host {
  compile =
      λ p. if str_eq p (codes "(") then err (codes "missing closing )") else ok (literal_of p);
}

literal_flags : Flags literal_host
unfolding str_eq
literal_flags = record {
  flagged = λ p re h. (literal_of (codes "(?i)" ++ p), refl);
  flagged_empty = (literal_of (codes "(?i)"), refl);
  quoted = λ l. (literal_of (codes "(?i)" ++ quote_meta l), refl);
}

abbrev policy_config : Config
policy_config = record {
  commit_config = some (record {
    author_email = some (record { domain_allow = some (codes "b.cc"); local_block = none });
    message_block = some (record { literals = []; patterns = codes "secret" ∷ [] });
    diff_block = some (record {
      literals = codes "key" ∷ [];
      patterns = as_text (codes "token") ∷ [];
      providers = [];
    });
  });
  gitleaks = none;
  domains = none;
  private_organizations = [];
  attestation_questions = [];
}

abbrev sample : AppConfig
sample = record {
  config = policy_config;
  cookie_secret = some (codes "default");
  tls = some (record { enabled = true; key = []; cert = codes "c.pem" });
  ssl_key_pem_path = some (codes "old.pem");
  ssl_cert_pem_path = none;
  source = [];
}

abbrev loader : List Str → AppConfig → Loader
loader keys cfg = record {
  Document = List Str;
  Json = Unit {0};
  Compiler = Unit {0};
  Schema = Unit {0};
  defaults = ok keys;
  stat = λ p. present;
  merge_file = λ d p. ok d;
  marshal = λ d. ok [];
  raw_keys = λ d. d;
  unmarshal = λ d. ok cfg;
  schema_document = ok tt;
  add_resource = λ u j. ok tt;
  compile_schema = λ c u. ok tt;
  unmarshal_json = λ s. ok tt;
  validate = λ s j. none;
}

abbrev no_env : Str → Str
no_env key = []

abbrev loaded : AppConfig
loaded = record sample { source = codes "p.json" }

loads :
    load_file literal_host (loader required_top_level_keys sample) no_env (codes "p.json")
    ≡ ok loaded
unfolding load_file
loads = refl

load_file_compiled_example :
    ((r : Option Regexp × Option Regexp) × (compiled_rules literal_host test_store
          (record test_settings { config = some policy_config })
          tt
          (email_rules literal_host test_store
            (record test_settings { config = some policy_config })
            tt)
        ≡ ok r))
    × ((organization : Str)
        → (ms : List DiffMatcher) × (diff_matchers literal_host
              (record test_settings { config = some policy_config })
              organization
            ≡ ok ms))
    × ((message : Str) (step : Step)
        → (is_message_allowed literal_host test_store
            (record test_settings { config = some policy_config })
            tt
            message
            step).1.error
          ≡ step.error)
unfolding has_text_patterns diff_block_of
load_file_compiled_example =
    load_file_compiled literal_host literal_flags (loader required_top_level_keys sample) no_env
      (codes "p.json") loaded test_store tt (record test_settings { config = some policy_config })
      loads refl refl

-- A key that is absent, and an expression that does not compile.
missing_key :
    load_file literal_host (loader (codes "api" ∷ []) sample) no_env []
    ≡ err (
        codes
          "missing required top-level configuration values: apiAuthentication, attestationConfig, authentication, authorisedList, commitConfig, configurationSources, contactEmail, cookieSecret, csrfProtection, domains, plugins, privateOrganizations, rateLimit, sessionMaxAgeHours, sink, tempPassword, tls, uiRouteAuth, upstreamProxy, urlShortener")
unfolding load_file join
missing_key = refl

known_hosts :
    parse_known_hosts (codes " a.io=SHA256:x=, b.io ,=SHA256:y,a.io=SHA256:z")
    ≡ (codes "a.io", codes "SHA256:z") ∷ []
unfolding parse_known_hosts str_eq
known_hosts = refl

cookie_secret_env :
    load literal_host
      (loader required_top_level_keys sample)
      (λ key. if str_eq key (codes "GIT_PROXY_COOKIE_SECRET") then codes "s" else [])
    ≡ ok (record sample { cookie_secret = some (codes "s") })
unfolding load
cookie_secret_env = refl

tls_paths : (tls_key_path sample ≡ codes "old.pem") × (tls_cert_path sample ≡ codes "c.pem")
unfolding tls_key_path tls_cert_path
tls_paths = (refl, refl)

default_ports : (load_server_env no_env).ui_port ≡ codes "8080"
unfolding load_server_env
default_ports = refl

github_only : proxied_hosts store db ≡ ok (codes "github.com" ∷ [])
unfolding proxied_hosts Repos.get_repos str_eq order_by where_rows has_prefix cut
github_only = refl

abbrev listed_twice : List AuthorisedRepo
listed_twice =
    let ar : AuthorisedRepo = record {
      project = codes "p";
      name = codes "n.git";
      url = codes "https://h.io/p/n.git";
    } in
    ar ∷ ar ∷ []

abbrev fresh_store : DbStore
fresh_store = sqlite (λ s. s) (λ d. map (λ r. b'x') d.repos)

-- A repository that stands twice in authorisedList is created twice, and the second is refused.
seeded_twice :
    (seed_authorised_repos fresh_store db listed_twice).1
    ≡ some (codes "UNIQUE constraint failed: repos.url")
unfolding seed_authorised_repos Repos.create_repo Repos.get_repos order_by where_rows find
    update_where Repos.get_repo_by_id Repos.get_repo_by_url Repos.add_to_list
seeded_twice = refl
