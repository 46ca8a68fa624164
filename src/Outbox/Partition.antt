-- ===== src/Outbox/Partition.antt =====
-- `getOutboxPartitionConfig` of packages/services/outbox.helpers.ts, and which events the
-- partitions reach together.
use semantask.Prelude.{
  ℕ, zero, suc, ◌+◌, ◌-◌, ◌%◌, ◌≤◌, ◌<◌, ltb, Bool, true, false, Option, none, some, String, ℤ, pos,
  negsuc, negate, remainder, is_nat, ==_iff, if◌then◌else◌, ◌≡◌, ◌↔◌, ◌⊎◌, inl, inr, refl, arith,
}
use native.Mathlib.Nat.{mod-lt}
use semantask.Outbox.{OutboxEvent}
use semantask.Outbox.Claim.{OutboxPartitionConfig, is_in_partition}

-- The whole part of the number that the environment gives, `none` where it gives no number.
unfoldable pub count_of : Option ℤ → ℕ
count_of (some (pos n)) = if ltb 1 n then n else 1
count_of _ = 1

-- `((n % count) + count) % count`
unfoldable pub wrap : ℤ → ℕ → ℕ
wrap (pos n) count = ((n % count) + count) % count
wrap (negsuc n) count = (count - (suc n % count)) % count

unfoldable pub get_outbox_partition_config : (raw_count raw_id : Option ℤ) → OutboxPartitionConfig
get_outbox_partition_config raw_count raw_id = record {
  count = count_of raw_count;
  id = wrap (elim raw_id [ none ↦ pos 0 | some n ↦ n ]) (count_of raw_count);
}

count_of-positive : (raw : Option ℤ) → 0 < count_of raw
unfolding count_of
count_of-positive none = omega arith
count_of-positive (some (negsuc n)) = omega arith
count_of-positive (some (pos n)) = ground arith

wrap-lt : (z : ℤ) (count : ℕ) → 0 < count → wrap z count < count
unfolding wrap
wrap-lt (pos n) count h = mod-lt _ h
wrap-lt (negsuc n) count h = mod-lt _ h

-- Whatever the environment holds, there is at least one partition and the worker's is one of them.
pub get_outbox_partition_config_lem :
    (raw_count raw_id : Option ℤ)
    → let config = get_outbox_partition_config raw_count raw_id in
      (1 ≤ config.count) × (config.id < config.count)
unfolding get_outbox_partition_config
get_outbox_partition_config_lem raw_count raw_id =
    (omega (arith, count_of-positive raw_count), wrap-lt _ _ (count_of-positive raw_count))

abbrev partition_of : (count id : ℕ) → OutboxPartitionConfig
partition_of count id = record { count = count; id = id }

-- Some of the partitions takes the event.
abbrev pub IsReached : (String → ℤ) → (count : ℕ) → OutboxEvent → Type 0
IsReached hash count e =
    (i : ℕ) × (i < count) × (is_in_partition hash (record { count = count; id = i }) e ≡ true)

abbrev pub is_negative : ℤ → Bool
is_negative (pos n) = false
is_negative (negsuc n) = true

in-partition :
    (hash : String → ℤ) (count i : ℕ) (e : OutboxEvent)
    → 1 < count
    → is_in_partition hash (record { count = count; id = i }) e
      ≡ is_nat (remainder (hash e.id) count) i
unfolding is_in_partition
in-partition hash count i e h = ground arith

negative_reach :
    (r count : ℕ)
    → 1 < count
    → ((i : ℕ) × (i < count) × (is_nat (negate r) i ≡ true)) ↔ ((true ≡ false) ⊎ (negate r ≡ pos 0))
negative_reach zero count h = (λ x. inr refl, λ x. (0, omega arith, refl))
negative_reach (suc r) count h = (λ (i, lt, t). ground arith, λ x. absurd (ground arith))

reach :
    (z : ℤ) (count : ℕ)
    → 1 < count
    → ((i : ℕ) × (i < count) × (is_nat (remainder z count) i ≡ true))
      ↔ ((is_negative z ≡ false) ⊎ (remainder z count ≡ pos 0))
reach (pos n) count h = (
  λ x. inl refl,
  λ x. (n % count, mod-lt n (omega arith), (==_iff (n % count) (n % count)).1 refl),
)
reach (negsuc n) count h = negative_reach (suc n % count) count h

same_partition :
    (z : ℤ) (count i j : ℕ)
    → is_nat (remainder z count) i ≡ true
    → is_nat (remainder z count) j ≡ true
    → i ≡ j
same_partition z count i j a b = ground arith

-- With two partitions or more, no event is in two of them; but an event is in one of them exactly
-- when its hash is not negative or is a multiple of their number, since the remainder that the
-- database computes has the sign of the hash.
pub IsReached-iff :
    (hash : String → ℤ) (count : ℕ) (e : OutboxEvent)
    → 1 < count
    → (IsReached hash count e
        ↔ ((is_negative (hash e.id) ≡ false) ⊎ (remainder (hash e.id) count ≡ pos 0)))
      × ((i j : ℕ)
          → is_in_partition hash (record { count = count; id = i }) e ≡ true
          → is_in_partition hash (record { count = count; id = j }) e ≡ true
          → i ≡ j)
IsReached-iff hash count e h =
    let r = reach (hash e.id) count h in
    (
      (
        λ (i, lt, t). r.0 (i, lt, rw (← in-partition hash count i e h) t),
        λ x. let (i, lt, t) = r.1 x in (i, lt, rw (in-partition hash count i e h) t),
      ),
      λ i j a b.
          same_partition (hash e.id) count i j (rw (← in-partition hash count i e h) a)
            (rw (← in-partition hash count j e h) b),
    )
