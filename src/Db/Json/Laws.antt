-- ===== src/Db/Json/Laws.antt =====
-- Behind a first round trip, encoding/json gives a push back unchanged.
use git_proxy_go.Base.{
  ◌≡◌, refl, sym, ap, ◌∙◌, ℕ, zero, suc, ◌≤◌, none, some, [], ◌∷◌, map, Str, arith,
}
use git_proxy_go.Model.{text, pack_meta, Push}
use git_proxy_go.Db.Json.{
  rune_size, two_bytes, three_bytes, four_bytes, coerced, json_text, json_option, json_content,
  json_step, json_commit, json_answer, json_attestation, json_rejection, json_pointer, json_push,
}
use git_proxy_go.Base.{◌⊎◌, inl, inr}

size_one : (c : ℕ) (s t : Str) → rune_size c s ≡ 1 → rune_size c t ≡ 1
unfolding rune_size
size_one c s t h = ground arith

size_two : (c d : ℕ) (s t : Str) → rune_size c (d ∷ s) ≡ 2 → rune_size c (d ∷ t) ≡ 2
unfolding rune_size two_bytes
size_two c d s t h = ground arith

size_three : (c d e : ℕ) (s t : Str) → rune_size c (d ∷ e ∷ s) ≡ 3 → rune_size c (d ∷ e ∷ t) ≡ 3
unfolding rune_size two_bytes three_bytes
size_three c d e s t h = ground arith

size_four :
    (c d e f : ℕ) (s t : Str) → rune_size c (d ∷ e ∷ f ∷ s) ≡ 4 → rune_size c (d ∷ e ∷ f ∷ t) ≡ 4
unfolding rune_size two_bytes three_bytes four_bytes
size_four c d e f s t h = ground arith

rune_size_bound : (c : ℕ) (s : Str) → rune_size c s ≤ 4
unfolding rune_size
rune_size_bound c s = ground arith

-- The bytes of a rune are kept, so it is still one.
rune_size-coerced :
    (c : ℕ) (s : Str) (n : ℕ) → rune_size c s ≡ suc n → rune_size c (coerced n s) ≡ suc n
unfolding coerced
rune_size-coerced c s zero h = size_one c s (coerced 0 s) h
rune_size-coerced c [] (suc n) h = h
rune_size-coerced c (d ∷ s) (suc zero) h = size_two c d s (coerced 0 s) h
rune_size-coerced c (d ∷ []) (suc (suc n)) h = h
rune_size-coerced c (d ∷ e ∷ s) (suc (suc zero)) h = size_three c d e s (coerced 0 s) h
rune_size-coerced c (d ∷ e ∷ []) (suc (suc (suc n))) h = h
rune_size-coerced c (d ∷ e ∷ f ∷ s) (suc (suc (suc zero))) h = size_four c d e f s (coerced 0 s) h
rune_size-coerced c (d ∷ e ∷ f ∷ s) (suc (suc (suc (suc n)))) h =
    absurd (omega (arith, rune_size_bound c (d ∷ e ∷ f ∷ s), h))

size_cases : (n : ℕ) → (n ≡ 0) ⊎ ((m : ℕ) × (n ≡ suc m))
size_cases zero = inl refl
size_cases (suc m) = inr (m, refl)

coerced_rune :
    (c : ℕ) (s : Str) (n : ℕ) → rune_size c s ≡ suc n → coerced 0 (c ∷ s) ≡ c ∷ coerced n s
unfolding coerced
coerced_rune c s n h = rw (coerced, h) refl

coerced_bad :
    (c : ℕ) (s : Str) → rune_size c s ≡ 0 → coerced 0 (c ∷ s) ≡ 239 ∷ 191 ∷ 189 ∷ coerced 0 s
unfolding coerced
coerced_bad c s h = rw (coerced, h) refl

-- U+FFFD is a rune.
coerced_replacement : (s : Str) → coerced 0 (239 ∷ 191 ∷ 189 ∷ s) ≡ 239 ∷ 191 ∷ 189 ∷ coerced 0 s
unfolding coerced rune_size two_bytes three_bytes
coerced_replacement s = refl

coerced_lem : (n : ℕ) (s : Str) → coerced n (coerced n s) ≡ coerced n s
unfolding coerced
coerced_lem n [] = refl
coerced_lem (suc n) (c ∷ s) = ap (λ t. c ∷ t) (coerced_lem n s)
coerced_lem zero (c ∷ s) = elim (size_cases (rune_size c s)) [
  | inl bad ↦
      ap (coerced 0) (coerced_bad c s bad)
      ∙ coerced_replacement (coerced 0 s)
      ∙ ap (λ t. 239 ∷ 191 ∷ 189 ∷ t) (coerced_lem 0 s)
      ∙ sym (coerced_bad c s bad)
  | inr (m, rune) ↦
      ap (coerced 0) (coerced_rune c s m rune)
      ∙ coerced_rune c (coerced m s) m (rune_size-coerced c s m rune)
      ∙ ap (λ t. c ∷ t) (coerced_lem m s)
      ∙ sym (coerced_rune c s m rune)
]

-- What a second time leaves as it is.
abbrev Settled {ℓ} : {A : Type ℓ} → (A → A) → Type ℓ
Settled f = (x : _) → f (f x) ≡ f x

map-Settled {ℓ} : {A : Type ℓ} (f : A → A) → Settled f → Settled (map f)
map-Settled f settled [] = refl
map-Settled f settled (x ∷ xs) =
    ap (λ y. y ∷ map f (map f xs)) (settled x) ∙ ap (λ ys. f x ∷ ys) (map-Settled f settled xs)

json_pointer-Settled {ℓ} : {A : Type ℓ} (f : A → A) → Settled f → Settled (json_pointer f)
unfolding json_pointer
json_pointer-Settled f settled none = refl
json_pointer-Settled f settled (some a) = ap some (settled a)

pub json_text-Settled : (s : Str) → json_text (json_text s) ≡ json_text s
unfolding json_text
json_text-Settled s = coerced_lem 0 s

json_option-Settled : Settled json_option
unfolding json_option
json_option-Settled none = refl
json_option-Settled (some s) = ap some (json_text-Settled s)

json_content-Settled : Settled json_content
unfolding json_content
json_content-Settled none = refl
json_content-Settled (some (text s)) = ap (λ t. some (text t)) (json_text-Settled s)
json_content-Settled (some (pack_meta m)) = refl

json_commit-Settled : Settled json_commit
unfolding json_commit
json_commit-Settled c = simp json_text-Settled

json_step-Settled : Settled json_step
unfolding json_step
json_step-Settled s = simp (
  json_text-Settled,
  json_content-Settled,
  json_option-Settled,
  map-Settled json_text json_text-Settled,
)

json_answer-Settled : Settled json_answer
unfolding json_answer
json_answer-Settled a = simp json_text-Settled

json_attestation-Settled : Settled json_attestation
unfolding json_attestation
json_attestation-Settled a = simp (json_text-Settled, map-Settled json_answer json_answer-Settled)

json_rejection-Settled : Settled json_rejection
unfolding json_rejection
json_rejection-Settled r = simp json_text-Settled

pub json_push-Settled : (p : Push) → json_push (json_push p) ≡ json_push p
unfolding json_push
json_push-Settled p = simp (
  json_text-Settled,
  json_option-Settled,
  map-Settled json_text json_text-Settled,
  map-Settled json_step json_step-Settled,
  map-Settled json_commit json_commit-Settled,
  json_pointer-Settled json_attestation json_attestation-Settled,
  json_pointer-Settled json_rejection json_rejection-Settled,
  json_pointer-Settled json_step json_step-Settled,
)
