-- ===== src/Retry/ScannerExamples.antt =====
-- The theorems on the scanner at two due tasks.
use semantask.Prelude.{
  ℕ, Bool, true, false, none, some, String, str_eq, [], ◌∷◌, length, some_of, ◌+◌, ◌≤◌,
  if◌then◌else◌, ◌≡◌, refl, ◌⊎◌, sym, arith, Bool-cases, inl, inr, eq_iff,
}
use semantask.Execution.Kind.{TaskLifecycleState, lifecycle_index}
use semantask.Retry.Scanner.{
  RetryCandidate, RetryStore, Enqueuing, works, fails_before, is_retry_scheduled,
  is_retry_candidate, oldest_candidate, enqueue_retry_for_candidate, promote_and_enqueue_retry,
  scan_loop, run_retry_scanner_once,
}
use semantask.Retry.Scans.{IsUnique, waits_at, scan-waits}
use semantask.Retry.Drained.{scan-drains}

abbrev due : String → ℕ → RetryCandidate
due id at = record {
  id = id;
  lifecycle_state = TaskLifecycleState.retry_scheduled;
  next_retry_at = some at;
  lease_owner = some "w9";
  lease_expires_at = some 10;
  last_retry_at = none;
  retry_count = 1;
}

abbrev store : RetryStore
store = record { tasks = due "t1" 50 ∷ due "t2" 40 ∷ due "t3" 99 ∷ []; events = [] }

-- The enqueuing for the first task fails.
abbrev outcome : String → Enqueuing
outcome id = if str_eq id "t1" then fails_before else works

-- Only the reversal of the first task works.
abbrev reverts : String → Bool
reverts id = str_eq id "t1"

abbrev all_work : String → Enqueuing
all_work id = works

-- Without transactions: the second task is enqueued, the claim of the first is taken back.
first_fails : run_retry_scanner_once false outcome reverts 60 5 store ≡ (
  record {
    tasks =
        record (due "t1" 50) { last_retry_at = some 60 }
        ∷ record (due "t2" 40) {
          lifecycle_state = TaskLifecycleState.ready;
          last_retry_at = some 60;
        }
        ∷ due "t3" 99
        ∷ [];
    events = ("t2", 1) ∷ [];
  },
  none,
)
unfolding run_retry_scanner_once scan_loop promote_and_enqueue_retry oldest_candidate
    is_retry_candidate enqueue_retry_for_candidate lifecycle_index
first_fails = refl

unique : IsUnique store.tasks
unique id = elim (Bool-cases (str_eq "t1" id)) [
  | inl e ↦ rw (sym ((eq_iff "t1" id).0 e)) (ground arith)
  | inr e ↦ elim (Bool-cases (str_eq "t2" id)) [
    | inl f ↦ rw (sym ((eq_iff "t2" id).0 f)) (ground arith)
    | inr f ↦ ground arith
  ]
]

scheduled : is_retry_scheduled (due "t1" 50).lifecycle_state ≡ true
unfolding lifecycle_index
scheduled = refl

-- Where the reversal fails too, the task is ready and has no event.
lost_without_reversal :
    waits_at (run_retry_scanner_once false outcome (λ id. false) 60 5 store).0 "t1" ≡ false
unfolding run_retry_scanner_once scan_loop promote_and_enqueue_retry oldest_candidate
    is_retry_candidate enqueue_retry_for_candidate lifecycle_index
lost_without_reversal = refl

scan-waits_example :
    waits_at (run_retry_scanner_once false outcome reverts 60 5 store).0 "t1" ≡ true
scan-waits_example =
    scan-waits false outcome reverts 60 5 store "t1" (due "t1" 50) unique refl scheduled refl

abbrev drained : RetryStore
drained = record {
  tasks =
      record (due "t1" 50) { lifecycle_state = TaskLifecycleState.ready; last_retry_at = some 60 }
      ∷ record (due "t2" 40) { lifecycle_state = TaskLifecycleState.ready; last_retry_at = some 60 }
      ∷ due "t3" 99
      ∷ [];
  events = ("t2", 1) ∷ ("t1", 1) ∷ [];
}

both_work : run_retry_scanner_once true all_work reverts 60 5 store ≡ (drained, some 2)
unfolding run_retry_scanner_once scan_loop promote_and_enqueue_retry oldest_candidate
    is_retry_candidate enqueue_retry_for_candidate lifecycle_index
both_work = refl

scan-drains_example :
    (length drained.events ≡ length store.events + 2)
    × (◌≡◌ {A = ℕ} 2 5 ⊎ (2 ≤ 5) × (some_of (is_retry_candidate 60) drained.tasks ≡ false))
scan-drains_example = scan-drains true all_work reverts 60 5 store drained 2 both_work
