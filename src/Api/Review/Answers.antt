-- ===== src/Api/Review/Answers.antt =====
-- validateAttestation of api_routes.go.
use git_proxy_go.Base.{
  ◌≡◌, refl, ap, arith, ℕ, zero, suc, Bool, true, false, not, ◌&&◌, List, [], ◌∷◌, Str, all, length,
  member, ◌==◌, if◌then◌else◌,
}
use git_proxy_go.Model.{AttestationAnswer}
use git_proxy_go.Chain.Config.{Config}

-- One round of the loop goes on.
unfoldable pub is_answered : List Str → AttestationAnswer → Bool
is_answered labels a = member labels a.label && a.checked

unfoldable pub validate_attestation : List AttestationAnswer → Config → Bool
unfolding is_answered
validate_attestation answers cfg =
    if not (length answers == length cfg.attestation_questions)
    then false
    else all (is_answered cfg.attestation_questions) answers

-- One answer, given so many times.
abbrev pub repeated : ℕ → AttestationAnswer → List AttestationAnswer
repeated zero a = []
repeated (suc n) a = a ∷ repeated n a

length-repeated : (n : ℕ) (a : AttestationAnswer) → length (repeated n a) ≡ n
length-repeated zero a = refl
length-repeated (suc n) a = ap suc (length-repeated n a)

all-repeated :
    (labels : List Str) (n : ℕ) (a : AttestationAnswer)
    → is_answered labels a ≡ true
    → all (is_answered labels) (repeated n a) ≡ true
all-repeated labels zero a h = refl
all-repeated labels (suc n) a h = rw h (all-repeated labels n a h)

answered_lem :
    (cfg : Config) (a : AttestationAnswer)
    → member cfg.attestation_questions a.label ≡ true
    → a.checked ≡ true
    → is_answered cfg.attestation_questions a ≡ true
unfolding is_answered
answered_lem cfg a asked checked = rw asked checked

-- A checked answer to one configured question, given as many times as there are questions, is a valid
-- attestation: the other questions need no answer.
pub validate_attestation-repeated :
    (cfg : Config) (a : AttestationAnswer)
    → member cfg.attestation_questions a.label ≡ true
    → a.checked ≡ true
    → validate_attestation (repeated (length cfg.attestation_questions) a) cfg ≡ true
unfolding validate_attestation
validate_attestation-repeated cfg a asked checked = ground (
  arith,
  length-repeated (length cfg.attestation_questions) a,
  all-repeated cfg.attestation_questions (length cfg.attestation_questions) a
      (answered_lem cfg a asked checked),
)
