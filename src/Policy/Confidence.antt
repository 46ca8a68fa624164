-- ===== src/Policy/Confidence.antt =====
-- The confidence that an intent must have: apps/task-worker/services/execution-confidence.ts and
-- `resolveConfidenceThreshold` of execution-policy.ts. A number between 0 and 1 is a whole number
-- of ten thousandths.
use semantask.Prelude.{
  ℕ, ◌≤◌, min, Option, none, some, List, [], ◌∷◌, or_else, Bool-cases, inl, inr, All, arith,
  if◌then◌else◌,
}
use semantask.Prelude.Text.{Text, codes, text_eq, is_filled}

-- The number 1.
abbrev pub one : ℕ
one = 10000

-- The threshold of a number that a policy stores: a value that is no finite number, a number below
-- 0, and any other.
pub data Stored : Type 0 where
  not_finite negative : Stored
  finite : (scaled : ℕ) → Stored

abbrev pub default_thresholds : List (Text × ℕ)
default_thresholds =
    (codes "task", 7000)
    ∷ (codes "scheduling", 7000)
    ∷ (codes "incident", 7500)
    ∷ (codes "automation", 7500)
    ∷ (codes "escalation", 8500)
    ∷ (codes "approval", 9000)
    ∷ (codes "chat", 7000)
    ∷ (codes "unknown", 7000)
    ∷ []

unfoldable pub lookup {ℓ} : {A : Type ℓ} → Text → List (Text × A) → Option A
lookup key [] = none
lookup key ((k, v) ∷ rest) = if text_eq k key then some v else lookup key rest

-- An empty or missing type, and one that is not listed, has the threshold of `unknown`.
unfoldable pub get_execution_confidence_threshold : Option Text → ℕ
unfolding lookup
get_execution_confidence_threshold none = 7000
get_execution_confidence_threshold (some semantic_type) =
    if is_filled semantic_type then or_else (lookup semantic_type default_thresholds) 7000 else 7000

-- `Math.max(0, Math.min(1, override))`, where the override is a finite number.
unfoldable pub clamp : Option Stored → Option ℕ
clamp none = none
clamp (some not_finite) = none
clamp (some negative) = some 0
clamp (some (finite scaled)) = some (min one scaled)

-- The entry of the intent, if there is one; then that of `unknown`; then the default.
unfoldable pub resolve_confidence_threshold :
    (semantic_type : Option Text) → (thresholds : Option (List (Text × Stored))) → ℕ
unfolding clamp
resolve_confidence_threshold semantic_type none = get_execution_confidence_threshold semantic_type
resolve_confidence_threshold semantic_type (some thresholds) =
    let fallback =
      or_else (clamp (lookup (codes "unknown") thresholds))
        (get_execution_confidence_threshold semantic_type) in
    elim semantic_type [
      | none ↦ fallback
      | some t ↦ if is_filled t then or_else (clamp (lookup t thresholds)) fallback else fallback
    ]

lookup-le-one :
    (key : Text) (table : List (Text × ℕ))
    → All (λ p. p.1 ≤ one) table
    → or_else (lookup key table) 7000 ≤ one
unfolding lookup
lookup-le-one key [] h = omega arith
lookup-le-one key ((k, v) ∷ rest) (hv, h) = elim (Bool-cases (text_eq k key)) [
  | inl e ↦ rw e hv
  | inr e ↦ rw e (lookup-le-one key rest h)
]

table-le-one : All (λ p. p.1 ≤ one) default_thresholds
table-le-one = (
  omega arith,
  (
    omega arith,
    (omega arith, (omega arith, (omega arith, (omega arith, (omega arith, (omega arith, tt)))))),
  ),
)

default-le-one :
    (semantic_type : Option Text) → get_execution_confidence_threshold semantic_type ≤ one
unfolding get_execution_confidence_threshold
default-le-one none = omega arith
default-le-one (some []) = omega arith
default-le-one (some (c ∷ t)) = lookup-le-one (c ∷ t) default_thresholds table-le-one

clamp-le-one : (o : Option Stored) (d : ℕ) → d ≤ one → or_else (clamp o) d ≤ one
unfolding clamp
clamp-le-one none d h = h
clamp-le-one (some not_finite) d h = h
clamp-le-one (some negative) d h = omega arith
clamp-le-one (some (finite n)) d h = omega arith

-- Whatever the policy stores, the threshold lies between 0 and 1.
pub threshold-le-one :
    (semantic_type : Option Text) (thresholds : Option (List (Text × Stored)))
    → resolve_confidence_threshold semantic_type thresholds ≤ one
unfolding resolve_confidence_threshold
threshold-le-one semantic_type none = default-le-one semantic_type
threshold-le-one none (some thresholds) =
    clamp-le-one (lookup (codes "unknown") thresholds) _ (default-le-one none)
threshold-le-one (some []) (some thresholds) =
    clamp-le-one (lookup (codes "unknown") thresholds) _ (default-le-one (some []))
threshold-le-one (some (c ∷ t)) (some thresholds) =
    clamp-le-one (lookup (c ∷ t) thresholds) _
      (clamp-le-one (lookup (codes "unknown") thresholds) _ (default-le-one (some (c ∷ t))))
