-- ===== src/Db/Json.antt =====
-- What a push of internal/db/model.go is behind json.Marshal and json.Unmarshal, as the stores use
-- them: encoding/json writes U+FFFD for each byte of a string that is no UTF-8.
pub mod Laws
use git_proxy_go.Base.{
  ℕ, zero, suc, ◌==◌, leb, ltb, Bool, true, false, ◌&&◌, Option, none, some, List, [], ◌∷◌, map,
  Str, if◌then◌else◌,
}
use git_proxy_go.Model.{
  Content, text, pack_meta, Step, CommitData, Reviewer, AttestationAnswer, Attestation, Rejection,
  Push,
}

unfoldable pub is_continuation : ℕ → Bool
is_continuation b = leb 128 b && leb b 191

unfoldable pub two_bytes : ℕ → Str → Bool
unfolding is_continuation
two_bytes c (d ∷ s) = leb 194 c && leb c 223 && is_continuation d
two_bytes c [] = false

unfoldable pub three_bytes : ℕ → Str → Bool
unfolding is_continuation
three_bytes c (d ∷ e ∷ s) =
    leb 224 c
    && leb c 239
    && leb (if c == 224 then 160 else 128) d
    && leb d (if c == 237 then 159 else 191)
    && is_continuation e
three_bytes c _ = false

unfoldable pub four_bytes : ℕ → Str → Bool
unfolding is_continuation
four_bytes c (d ∷ e ∷ f ∷ s) =
    leb 240 c
    && leb c 244
    && leb (if c == 240 then 144 else 128) d
    && leb d (if c == 244 then 143 else 191)
    && is_continuation e
    && is_continuation f
four_bytes c _ = false

-- utf8.DecodeRuneInString: the bytes of the rune that begins with `c`, before `s`; 0 where it is none.
unfoldable pub rune_size : ℕ → Str → ℕ
unfolding two_bytes three_bytes four_bytes
rune_size c s =
    if ltb c 128
    then 1
    else if two_bytes c s
    then 2
    else if three_bytes c s
    then 3
    else if four_bytes c s
    then 4
    else 0

-- The first `n` bytes belong to a rune that began before them.
unfoldable pub coerced : ℕ → Str → Str
unfolding rune_size
coerced n [] = []
coerced (suc n) (c ∷ s) = c ∷ coerced n s
coerced zero (c ∷ s) = elim (rune_size c s) [
  | zero ↦ 239 ∷ 191 ∷ 189 ∷ coerced zero s
  | suc n ↦ c ∷ coerced n s
]

unfoldable pub json_text : Str → Str
unfolding coerced
json_text s = coerced 0 s

unfoldable pub json_option : Option Str → Option Str
json_option none = none
json_option (some s) = some (json_text s)

-- A pack header is decoded to a map with the same entries, which nothing reads.
unfoldable pub json_content : Option Content → Option Content
json_content none = none
json_content (some (text s)) = some (text (json_text s))
json_content (some (pack_meta m)) = some (pack_meta m)

unfoldable pub json_step : Step → Step
unfolding json_content json_option
json_step s = record s {
  step_name = json_text s.step_name;
  content = json_content s.content;
  error_message = json_option s.error_message;
  blocked_message = json_option s.blocked_message;
  logs = map json_text s.logs;
}

unfoldable pub json_commit : CommitData → CommitData
json_commit c = record {
  tree = json_text c.tree;
  parent = json_text c.parent;
  author = json_text c.author;
  committer = json_text c.committer;
  author_email = json_text c.author_email;
  committer_email = json_text c.committer_email;
  commit_timestamp = json_text c.commit_timestamp;
  message = json_text c.message;
}

unfoldable pub json_reviewer : Reviewer → Reviewer
json_reviewer r = record { username = json_text r.username; email = json_text r.email }

unfoldable pub json_answer : AttestationAnswer → AttestationAnswer
json_answer a = record a { label = json_text a.label }

unfoldable pub json_attestation : Attestation → Attestation
unfolding json_reviewer json_answer
json_attestation a = record a {
  reviewer = json_reviewer a.reviewer;
  timestamp = json_text a.timestamp;
  answers = map json_answer a.answers;
}

unfoldable pub json_rejection : Rejection → Rejection
unfolding json_reviewer
json_rejection r = record r {
  reviewer = json_reviewer r.reviewer;
  timestamp = json_text r.timestamp;
  reason = json_text r.reason;
}

-- A pointer: nil stays nil.
unfoldable pub json_pointer {ℓ} : {A : Type ℓ} → (A → A) → Option A → Option A
json_pointer f none = none
json_pointer f (some a) = some (f a)

unfoldable pub json_push : Push → Push
unfolding json_step json_commit json_attestation json_rejection json_pointer json_option
json_push p = record p {
  id = json_text p.id;
  kind = json_text p.kind;
  method = json_text p.method;
  project = json_text p.project;
  repo_name = json_text p.repo_name;
  url = json_text p.url;
  repo = json_text p.repo;
  steps = map json_step p.steps;
  error_message = json_option p.error_message;
  blocked_message = json_option p.blocked_message;
  commit_data = map json_commit p.commit_data;
  commit_from = json_text p.commit_from;
  commit_to = json_text p.commit_to;
  branch = json_text p.branch;
  message = json_text p.message;
  author = json_text p.author;
  user = json_text p.user;
  user_email = json_text p.user_email;
  attestation = json_pointer json_attestation p.attestation;
  rejection = json_pointer json_rejection p.rejection;
  last_step = json_pointer json_step p.last_step;
  proxy_git_path = json_text p.proxy_git_path;
  new_idx_files = map json_text p.new_idx_files;
}
