-- ===== src/Capacity/Bounded.antt =====
-- The capacity that admission sees is bounded by what was measured, and nothing where nothing was.
use vvz_lmrs.Prelude.{
  String, Bool, ◌≡◌, ap, sym, subst, ok_injective, Option, none, some, or_else, List, [], ◌∷◌, All,
  Result, ok, err, Returns, inr, arith,
}
use vvz_lmrs.Prelude.Int.{ℤ, pos, ◌≤ℤ◌, ◌<ℤ◌, +ℤ_parts}
use vvz_lmrs.Prelude.Dict.{Dict}
use vvz_lmrs.Prelude.Value.{Value, Scalar, to_int}
use vvz_lmrs.Estimation.{RequestCapacityEstimate}
use vvz_lmrs.Admission.{CapacitySnapshot, decide_admission}
use vvz_lmrs.Admission.Decision.{charge, decision_iff}
use vvz_lmrs.Lifecycle.{ModelResidency, ProbeResult}
use vvz_lmrs.Queue.{QueueEntry, RequestQueue}
use vvz_lmrs.Vram.Pools.{IsReserved, pools_bounded}
use vvz_lmrs.Vram.Store.{GpuMemoryMeasurement, StoredFile, WriteOutcome, read}
use vvz_lmrs.Capacity.{int_env, non_negative, reserved_bytes, sum_of}
use vvz_lmrs.Capacity.Payload.{
  Settings, VramPayload, free_of, state_of, when_free, baseline_step, payload_of, vram_payload,
  snapshot_of, snapshot_read, capacity_snapshot,
}

non_negative_lem : (r : Result ℤ) → pos 0 ≤ℤ non_negative r (pos 0)
unfolding non_negative
non_negative_lem (err e) = omega arith
non_negative_lem (ok n) = ground arith

int_env_lem : (raw : Option String) → pos 0 ≤ℤ int_env raw (pos 0)
unfolding int_env
int_env_lem none = omega arith
int_env_lem (some raw) = non_negative_lem (to_int (Scalar.text raw))

-- Every entry reserves an amount that is not negative.
abbrev pub AreReserved : List QueueEntry → Type 0
AreReserved = All (λ (e : QueueEntry). pos 0 ≤ℤ e.required_dynamic_vram_bytes)

sum_of_lem : (es : List QueueEntry) → AreReserved es → pos 0 ≤ℤ sum_of es
unfolding sum_of
sum_of_lem [] h = omega arith
sum_of_lem (e ∷ es) h =
    omega (arith, h.0, sum_of_lem es h.1, +ℤ_parts e.required_dynamic_vram_bytes (sum_of es))

state_of-IsReserved :
    (free : Option ℤ) (settings : Settings) (q : RequestQueue)
    → pos 0 ≤ℤ or_else free (pos 0)
    → AreReserved q.entries
    → IsReserved (state_of free settings q)
unfolding state_of reserved_bytes
state_of-IsReserved free settings q h k = record {
  free = h;
  margin = int_env_lem settings.safety_margin_text;
  reserve = int_env_lem settings.runtime_reserve_text;
  active = sum_of_lem q.entries k;
}

-- The figures of a snapshot lie in order, and are nothing without a reading.
record IsBounded (free : Option ℤ) (pool usable : ℤ) : Type 0 where
  some_left : pos 0 ≤ℤ usable
  within : usable ≤ℤ pool
  measured : pool ≤ℤ or_else free (pos 0)

ordered :
    (free : Option ℤ) (r : Result CapacitySnapshot)
    → Returns r (λ c. IsBounded free c.max_dynamic_pool_bytes c.usable_dynamic_vram_bytes)
    → Returns r (λ c.
      (pos 0 ≤ℤ c.usable_dynamic_vram_bytes)
      × (c.usable_dynamic_vram_bytes ≤ℤ c.max_dynamic_pool_bytes)
      × (c.max_dynamic_pool_bytes ≤ℤ or_else free (pos 0)))
ordered free (ok c) h = (h.some_left, h.within, h.measured)
ordered free (err e) h = h

-- The pool of a snapshot that was taken.
pool_at :
    (free : Option ℤ) (r : Result CapacitySnapshot) (c : CapacitySnapshot)
    → r ≡ ok c
    → free ≡ none
    → Returns r (λ c.
      (pos 0 ≤ℤ c.usable_dynamic_vram_bytes)
      × (c.usable_dynamic_vram_bytes ≤ℤ c.max_dynamic_pool_bytes)
      × (c.max_dynamic_pool_bytes ≤ℤ or_else free (pos 0)))
    → c.max_dynamic_pool_bytes ≤ℤ pos 0
pool_at free (ok d) c e unread h =
    let same = ap (λ (x : CapacitySnapshot). x.max_dynamic_pool_bytes) (ok_injective e) in
    rw (← same) (subst (λ o. d.max_dynamic_pool_bytes ≤ℤ or_else o (pos 0)) unread h.2)
pool_at free (err x) c e unread h = absurd h

module _ {S : Type 0} (list_models : S → ProbeResult × S)
    (is_model_served : String → S → ProbeResult × S) where
  payload-IsBounded :
      (m : GpuMemoryMeasurement) (settings : Settings) (residency : Option ModelResidency)
      (q : RequestQueue) (free : Option ℤ) (stored : Dict Value)
      → pos 0 ≤ℤ or_else free (pos 0)
      → AreReserved q.entries
      → Returns
          (payload_of list_models is_model_served m settings residency q free stored)
          (λ p. IsBounded free p.max_dynamic_pool_bytes p.usable_dynamic_vram_bytes)
  unfolding payload_of when_free
  payload-IsBounded m settings residency q none stored h k = record {
    some_left = omega arith;
    within = omega arith;
    measured = omega arith;
  }
  payload-IsBounded m settings residency q (some free) stored h k =
      let (pool, usable, e, f, a, b, c, d) =
        pools_bounded (state_of (some free) settings q)
          (state_of-IsReserved (some free) settings q h k) in
      rw (e, f) (record { some_left = a; within = b; measured = c })

  snapshot-IsBounded :
      (name : String) (residency : Option ModelResidency) (free : Option ℤ) (r : Result VramPayload)
      (file : StoredFile) (s : S)
      → Returns r (λ p. IsBounded free p.max_dynamic_pool_bytes p.usable_dynamic_vram_bytes)
      → Returns
          (snapshot_read list_models is_model_served name residency (r, file, s)).0
          (λ c. IsBounded free c.max_dynamic_pool_bytes c.usable_dynamic_vram_bytes)
  unfolding snapshot_read snapshot_of
  snapshot-IsBounded name residency free (ok p) file s h = h
  snapshot-IsBounded name residency free (err e) file s h = h

  -- When neither the free memory, measured now or on record, nor any reservation in the queue is
  -- negative, the snapshot is returned; what is usable lies between zero and the pool, and the pool
  -- is at most the free memory, so both are zero where there is no reading at all.
  pub capacity_bounded :
      (name : String) (m : GpuMemoryMeasurement) (settings : Settings)
      (residency : Option ModelResidency) (q : RequestQueue) (outcome : WriteOutcome)
      (file : StoredFile) (s : S)
      → pos 0 ≤ℤ or_else (free_of m (read file)) (pos 0)
      → AreReserved q.entries
      → Returns
          (capacity_snapshot list_models is_model_served name m settings residency q outcome file
            s).0
          (λ c.
            (pos 0 ≤ℤ c.usable_dynamic_vram_bytes)
            × (c.usable_dynamic_vram_bytes ≤ℤ c.max_dynamic_pool_bytes)
            × (c.max_dynamic_pool_bytes ≤ℤ or_else (free_of m (read file)) (pos 0)))
  unfolding capacity_snapshot vram_payload
  capacity_bounded name m settings residency q outcome file s h k =
      let free = free_of m (read file) in
      let (stored, after, t) =
        baseline_step list_models is_model_served m settings residency outcome file s in
      ordered free
        (snapshot_read list_models is_model_served name residency
          (payload_of list_models is_model_served m settings residency q free stored, after, t)).0
        (snapshot-IsBounded name residency free
          (payload_of list_models is_model_served m settings residency q free stored) after t
          (payload-IsBounded m settings residency q free stored h k))

  -- Where the GPU does not answer, no free memory is on record and no queued reservation is negative,
  -- admission on the snapshot that is taken rejects every request that is charged any memory.
  pub unmeasured_reject :
      (name : String) (m : GpuMemoryMeasurement) (settings : Settings)
      (residency : Option ModelResidency) (q : RequestQueue) (outcome : WriteOutcome)
      (file : StoredFile) (s : S) (e : RequestCapacityEstimate) (hit : Bool) (adjusted : Option ℤ)
      (c : CapacitySnapshot)
      → free_of m (read file) ≡ none
      → AreReserved q.entries
      → (capacity_snapshot list_models is_model_served name m settings residency q outcome file s).0
        ≡ ok c
      → pos 0 <ℤ charge e hit adjusted
      → (decide_admission e c hit adjusted).decision ≡ "would_reject"
  unmeasured_reject name m settings residency q outcome file s e hit adjusted c unread k seen h =
      let top =
        pool_at (free_of m (read file))
          (capacity_snapshot list_models is_model_served name m settings residency q outcome file
            s).0
          c seen unread
          (capacity_bounded name m settings residency q outcome file s
            (subst (λ o. pos 0 ≤ℤ or_else o (pos 0)) (sym unread) (omega arith)) k) in
      (decision_iff e c hit adjusted).2.1 (inr (omega (arith, h, top)))
