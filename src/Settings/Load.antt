-- ===== src/Settings/Load.antt =====
-- internal/config/config.go: the loader of the configuration and its accessors. koanf, the JSON
-- Schema library and the file system are parameters.
use git_proxy_go.Base.{
  Bool, false, Option, none, some, List, [], ◌∷◌, ◌++◌, Str, codes, is_empty, if◌then◌else◌, Result,
  err, ok, ◌>>=◌,
}
use git_proxy_go.Chain.Config.{Config}
use git_proxy_go.Settings.Validate.{validate_commit_config, assert_required_top_level}
use git_proxy_go.Host.{Host}

pub record Tls : Type 0 where
  pub enabled : Bool
  pub key : Str
  pub cert : Str

pub record AppConfig : Type 0 where
  pub config : Config
  pub cookie_secret : Option Str
  pub tls : Option Tls
  pub ssl_key_pem_path : Option Str
  pub ssl_cert_pem_path : Option Str
  pub source : Str

-- `os.Stat`.
pub data FileState : Type 0 where
  present : FileState
  absent : FileState
  failed : Str → FileState

-- koanf over the embedded defaults, the jsonschema library over the embedded schema, and the file
-- system. `raw_keys` are the keys of `Raw()`.
pub record Loader : Type 1 where
  pub Document : Type 0
  pub Json : Type 0
  pub Compiler : Type 0
  pub Schema : Type 0
  pub defaults : Result Document
  pub stat : Str → FileState
  pub merge_file : Document → Str → Result Document
  pub marshal : Document → Result Str
  pub raw_keys : Document → List Str
  pub unmarshal : Document → Result AppConfig
  pub schema_document : Result Json
  pub add_resource : Str → Json → Result Compiler
  pub compile_schema : Compiler → Str → Result Schema
  pub unmarshal_json : Str → Result Json
  pub validate : Schema → Json → Option Str

unfoldable pub wrapped {ℓ} : {A : Type ℓ} → Str → Result A → Result A
wrapped what (ok a) = ok a
wrapped what (err e) = err (what ++ e)

-- The result, unless there is an error.
unfoldable pub unless {ℓ} : {A : Type ℓ} → Option Str → Result A → Result A
unless none r = r
unless (some e) r = err e

abbrev pub schema_url : Str
schema_url = codes "https://git-proxy.finos.org/config.schema.json"

unfoldable pub apply_env_overrides : (Str → Str) → AppConfig → AppConfig
apply_env_overrides getenv cfg =
    let v = getenv (codes "GIT_PROXY_COOKIE_SECRET") in
    if is_empty v then cfg else record cfg { cookie_secret = some v }

module _ (h : Host) (l : Loader) (getenv : Str → Str) where
  -- It is computed once, and its result kept.
  unfoldable pub schema : Result l.Schema
  unfolding wrapped
  schema = do
    document ← wrapped (codes "parsing config schema: ") l.schema_document
    compiler ← wrapped (codes "adding config schema: ") (l.add_resource schema_url document)
    wrapped (codes "compiling config schema: ") (l.compile_schema compiler schema_url)

  unfoldable pub invalid : Option Str → Result Str
  invalid none = ok []
  invalid (some e) = err (codes "invalid configuration: " ++ e)

  -- The text behind `ok` is of no use.
  unfoldable pub validate_schema : Str → Result Str
  unfolding schema wrapped invalid
  validate_schema instance_text = do
    sch ← schema
    inst ← wrapped (codes "parsing config for validation: ") (l.unmarshal_json instance_text)
    invalid (l.validate sch inst)

  -- The document with the file at `path` merged into it, and the source.
  unfoldable pub with_file : l.Document → Str → Result (l.Document × Str)
  unfolding wrapped
  with_file document path = if is_empty path then ok (document, []) else elim (l.stat path) [
    | present ↦
        wrapped (codes "loading config " ++ (h.quote path ++ codes ": "))
          (l.merge_file document path)
        >>= λ merged. ok (merged, path)
    | absent ↦ ok (document, [])
    | failed e ↦ err (codes "checking config " ++ (h.quote path ++ (codes ": " ++ e)))
  ]

  -- Behind the decoding of the document.
  unfoldable pub finished : Str → AppConfig → Result AppConfig
  unfolding unless validate_commit_config apply_env_overrides
  finished source decoded =
      let cfg = apply_env_overrides getenv (record decoded { source = source }) in
      unless (validate_commit_config h cfg.config.commit_config) (ok cfg)

  unfoldable pub required : l.Document → Result AppConfig
  unfolding wrapped unless assert_required_top_level
  required document =
      unless (assert_required_top_level (l.raw_keys document))
        (wrapped (codes "unmarshaling config: ") (l.unmarshal document))

  -- Behind the marshalling.
  unfoldable pub checked_text : l.Document → Str → Str → Result AppConfig
  unfolding validate_schema required finished
  checked_text document source merged =
      validate_schema merged >>= λ valid. required document >>= finished source

  -- Behind the merge.
  unfoldable pub checked : l.Document × Str → Result AppConfig
  unfolding wrapped checked_text
  checked (document, source) =
      wrapped (codes "marshaling merged config: ") (l.marshal document)
      >>= checked_text document source

  -- Behind the defaults.
  unfoldable pub merged_with : Str → l.Document → Result AppConfig
  unfolding with_file checked
  merged_with path defaults = with_file defaults path >>= checked

  unfoldable pub load_file : Str → Result AppConfig
  unfolding wrapped merged_with
  load_file path = wrapped (codes "loading default config: ") l.defaults >>= merged_with path

  unfoldable pub load : Result AppConfig
  unfolding load_file
  load = load_file (getenv (codes "CONFIG_FILE"))

unfoldable pub or_legacy : Str → Option Str → Str
or_legacy [] none = []
or_legacy [] (some legacy) = legacy
or_legacy (c ∷ s) legacy = c ∷ s

unfoldable pub tls_enabled : AppConfig → Bool
tls_enabled cfg = elim cfg.tls [ none ↦ false | some t ↦ t.enabled ]

unfoldable pub tls_key_path : AppConfig → Str
unfolding or_legacy
tls_key_path cfg = or_legacy (elim cfg.tls [ none ↦ [] | some t ↦ t.key ]) cfg.ssl_key_pem_path

unfoldable pub tls_cert_path : AppConfig → Str
unfolding or_legacy
tls_cert_path cfg = or_legacy (elim cfg.tls [ none ↦ [] | some t ↦ t.cert ]) cfg.ssl_cert_pem_path
