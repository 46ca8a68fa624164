-- ===== src/Execution/Transitions/Lookup.antt =====
-- The map that the module builds when it is loaded holds the table's edges and no others.
use mathlib.Core.List.{foldl}
use mathlib.Core.Bool.{and-eq-true_iff}
use semantask.Prelude.{
  Bool, true, false, ◌&&◌, ◌||◌, List, [], ◌∷◌, ◌++◌, some, or_else, ◌≡◌, refl, ◌∙◌, ◌↔◌, arith,
  some_of, All, Any, here, there, if◌then◌else◌, Bool-cases, inl, inr, sym,
}
use semantask.Execution.Kind.{ExecutionStateKind, kind_eq, kind_eq_iff, has_kind, index}
use semantask.Execution.Transitions.{
  Edge, TransitionMap, get, put, add_edge, leads, transition_map, legal_execution_transitions,
  can_transition_execution_state,
}

has_kind-append :
    (xs : List ExecutionStateKind) (a b : ExecutionStateKind)
    → has_kind (xs ++ a ∷ []) b ≡ (has_kind xs b || kind_eq a b)
has_kind-append [] a b = ground arith
has_kind-append (x ∷ xs) a b = ground (arith, has_kind-append xs a b)

get-put :
    (a b : ExecutionStateKind) (ts : List ExecutionStateKind) (m : TransitionMap)
    → get b (put a ts m) ≡ (if kind_eq a b then some ts else get b m)
unfolding get put
get-put a b ts [] = refl
get-put a b ts ((k, old) ∷ m) = ground (arith, get-put a b ts m)

-- Two kinds with one place lead to the same targets.
get-kind_eq :
    (a b : ExecutionStateKind) (m : TransitionMap) → kind_eq a b ≡ true → get a m ≡ get b m
unfolding get
get-kind_eq a b [] h = refl
get-kind_eq a b ((k, ts) ∷ m) h = ground (arith, get-kind_eq a b m)

leads-add_edge :
    (m : TransitionMap) (e : Edge) (a b : ExecutionStateKind)
    → leads (add_edge m e) a b ≡ (leads m a b || (kind_eq e.0 a && kind_eq e.1 b))
unfolding add_edge
leads-add_edge m (from, to) a b = ground (
  arith,
  get-put from a (or_else (get from m) [] ++ to ∷ []) m,
  get-kind_eq from a m,
  has_kind-append (or_else (get from m) []) to b,
)

-- An edge of the table.
abbrev pub links : ExecutionStateKind → ExecutionStateKind → Edge → Bool
links a b e = kind_eq e.0 a && kind_eq e.1 b

leads-foldl :
    (es : List Edge) (m : TransitionMap) (a b : ExecutionStateKind)
    → leads (foldl add_edge m es) a b ≡ (leads m a b || some_of (links a b) es)
leads-foldl [] m a b = ground arith
leads-foldl (e ∷ es) m a b =
    ground (arith, leads-foldl es (add_edge m e) a b, leads-add_edge m e a b)

-- No edge of the table leads back to its own kind.
no_loops : All (λ e. kind_eq e.0 e.1 ≡ false) legal_execution_transitions
unfolding index
no_loops = ground arith

some_of-links :
    (es : List Edge) (a b : ExecutionStateKind)
    → All (λ e. kind_eq e.0 e.1 ≡ false) es
    → kind_eq a b ≡ true
    → some_of (links a b) es ≡ false
some_of-links [] a b h same = refl
some_of-links (e ∷ es) a b (h, hs) same = ground (arith, some_of-links es a b hs same)

leads-transition_map :
    (a b : ExecutionStateKind)
    → leads transition_map a b ≡ some_of (links a b) legal_execution_transitions
unfolding transition_map get
leads-transition_map a b = leads-foldl legal_execution_transitions [] a b

pub can_transition-eq-links :
    (a b : ExecutionStateKind)
    → can_transition_execution_state a b ≡ some_of (links a b) legal_execution_transitions
unfolding can_transition_execution_state
can_transition-eq-links a b = elim (Bool-cases (kind_eq a b)) [
  | inl same ↦ rw same (sym (some_of-links legal_execution_transitions a b no_loops same))
  | inr other ↦ rw other (leads-transition_map a b)
]

-- A Boolean search, and membership with the place kept.
module _ {ℓ κ} {A : Type ℓ} (p : A → Bool) (P : A → Type κ) where
  Any-of_some_of : ((x : A) → p x ≡ true → P x) → (xs : List A) → some_of p xs ≡ true → Any P xs
  Any-of_some_of f [] h = cc
  Any-of_some_of f (x ∷ xs) h = elim (Bool-cases (p x)) [
    | inl e ↦ here (f x e)
    | inr e ↦ there (Any-of_some_of f xs (rw e at h))
  ]

  some_of-of_Any : {xs : List A} → ((x : A) → P x → p x ≡ true) → Any P xs → some_of p xs ≡ true
  some_of-of_Any f (here {x} h) = rw (f x h)
  some_of-of_Any f (there {x} m) = rw (some_of-of_Any f m) (ground arith)

-- A state of kind `from` may be followed by one of kind `to` exactly when the table has the edge.
pub can_transition_iff :
    (from to : ExecutionStateKind)
    → (can_transition_execution_state from to ≡ true)
      ↔ Any (λ e. (e.0 ≡ from) × (e.1 ≡ to)) legal_execution_transitions
can_transition_iff from to = (
  λ h.
      Any-of_some_of (links from to) _
        (λ e l.
          let (a, b) = (and-eq-true_iff _ _).0 l in ((kind_eq_iff _ _).0 a, (kind_eq_iff _ _).0 b))
        legal_execution_transitions (sym (can_transition-eq-links from to) ∙ h),
  λ m.
      can_transition-eq-links from to
      ∙ some_of-of_Any (links from to) _
          (λ e l. (and-eq-true_iff _ _).1 ((kind_eq_iff _ _).1 l.0, (kind_eq_iff _ _).1 l.1)) m,
)
