-- ===== src/Calibration/Profile.antt =====
-- What a calibration profile says of the observations that it was built from.
use vvz_lmrs.Prelude.{
  ℕ, ◌≡◌, if_case, subst, ◌↔◌, ◌∙◌, ◌⊎◌, inl, inr, ◌<◌, ◌+◌, ◌*◌, ◌/◌, ◌≢◌, ap, ◌>>=◌, refl, arith,
  false, List, [], ◌∷◌, length, All, ok, >>=-eq-ok, if◌then◌else◌,
}
use vvz_lmrs.Prelude.Int.{
  ℤ, pos, negsuc, ◌+ℤ◌, ◌-ℤ◌, ◌*ℤ◌, ◌//ℤ◌, max_ℤ, ◌≤ℤ◌, ◌<ℤ◌, ltb_ℤ, int_laws, max_ℤ_bounds,
}
use vvz_lmrs.Calibration.{
  CalibrationKey, CalibrationObservation, CalibrationProfile, no_sums, accumulate, kv_cost,
  profile_of, build_calibration_profile,
}
use vvz_lmrs.Calibration.Loop.{
  IsMeasured, sum, maximum, tokens_of, overhead_of, sums_from, zero_add, accumulate_lem,
  accumulate-All,
}

-- A profile is built exactly when there is an observation and no figure of any observation is
-- negative.
pub built_iff :
    (key : CalibrationKey) (os : List CalibrationObservation)
    → ((p : CalibrationProfile) × (build_calibration_profile key os ≡ ok p))
      ↔ ((os ≢ []) × All IsMeasured os)
unfolding build_calibration_profile
built_iff key [] = (λ h. cc (h.1), λ h. elim (h.0 refl) [ ])
built_iff key (o ∷ os) = (
  λ h.
      let (s, e, k) =
        >>=-eq-ok (accumulate (o ∷ os) no_sums) (λ s. ok (profile_of key (length (o ∷ os)) s))
          h.1 in
      (cc, accumulate-All (o ∷ os) no_sums s e),
  λ h. (
    _,
    ap (λ r. r >>= λ s. ok (profile_of key (length (o ∷ os)) s))
        (accumulate_lem (o ∷ os) no_sums h.1 (omega arith) (omega arith)),
  ),
)

built_of :
    (key : CalibrationKey) (os : List CalibrationObservation) {p : CalibrationProfile}
    → build_calibration_profile key os ≡ ok p
    → p ≡ profile_of key (length os) (sums_from no_sums os)
unfolding build_calibration_profile
built_of key [] h = cc
built_of key (o ∷ os) {p} h =
    let (s, e, k) =
      >>=-eq-ok (accumulate (o ∷ os) no_sums) (λ s. ok (profile_of key (length (o ∷ os)) s)) h in
    let all = accumulate-All (o ∷ os) no_sums s e in
    cc (e, k, accumulate_lem (o ∷ os) no_sums all (omega arith) (omega arith))

maximum_nonneg :
    (f : CalibrationObservation → ℤ) (os : List CalibrationObservation) → pos 0 ≤ℤ maximum f os
maximum_nonneg f [] = omega arith
maximum_nonneg f (o ∷ os) = omega (arith, maximum_nonneg f os, max_ℤ_bounds (f o) (maximum f os))

max_zero_of : (a : ℤ) → pos 0 ≤ℤ a → max_ℤ (pos 0) a ≡ a
unfolding max_ℤ
max_zero_of a h = ground arith

-- A profile carries its key, as overheads the greatest of each kind that was observed, and as its
-- count the number of observations.
pub built_overheads :
    (key : CalibrationKey) (os : List CalibrationObservation) (p : CalibrationProfile)
    → build_calibration_profile key os ≡ ok p
    → (p.key ≡ key)
      × (p.observation_count ≡ length os)
      × (p.per_request_overhead_bytes ≡ maximum (λ o. o.per_request_overhead_bytes) os)
      × (p.runtime_batch_overhead_bytes ≡ maximum (λ o. o.runtime_batch_overhead_bytes) os)
unfolding profile_of
built_overheads key os p h =
    let e = built_of key os h in
    (
      ap (λ p. p.key) e,
      ap (λ p. p.observation_count) e,
      ap (λ p. p.per_request_overhead_bytes) e
          ∙ max_zero_of _ (maximum_nonneg (λ o. o.per_request_overhead_bytes) os),
      ap (λ p. p.runtime_batch_overhead_bytes) e
          ∙ max_zero_of _ (maximum_nonneg (λ o. o.runtime_batch_overhead_bytes) os),
    )

-- `k` is the cost of a token when `t` tokens cost `net`: the greatest with `k * t` within `net`, and
-- 0 when there is no token or when `net` is negative.
abbrev pub IsCost : ℤ → ℤ → ℤ → Type 0
IsCost net t k =
    (pos 0 ≤ℤ k)
    × (k *ℤ t ≤ℤ max_ℤ (pos 0) net)
    × ((net <ℤ (k +ℤ pos 1) *ℤ t) ⊎ ((t ≡ pos 0) × (k ≡ pos 0)))

mul_pos : (k t : ℕ) → pos k *ℤ pos t ≡ pos (k * t)
unfolding ◌*ℤ◌
mul_pos k t = ground arith

max_negsuc : (a : ℕ) → max_ℤ (pos 0) (negsuc a) ≡ pos 0
unfolding max_ℤ
max_negsuc a = ground arith

add_pos : (a b : ℕ) → pos a +ℤ pos b ≡ pos (a + b)
unfolding ◌+ℤ◌
add_pos a b = ground arith

floor-IsCost : (net : ℤ) (t : ℕ) → 0 < t → IsCost net (pos t) (max_ℤ (pos 0) (net //ℤ pos t))
unfolding ◌//ℤ◌
floor-IsCost (pos a) t h =
    rw
      (
        max_zero_of (pos (a / t)) (omega arith),
        max_zero_of (pos a) (omega arith),
        add_pos (a / t) 1,
        mul_pos (a / t) t,
        mul_pos (a / t + 1) t,
      )
      (omega arith, omega arith, inl (omega arith))
floor-IsCost (negsuc a) t h =
    rw (max_negsuc (a / t), max_negsuc a, add_pos 0 1, mul_pos 0 t, mul_pos 1 t)
      (omega arith, omega arith, inl (omega arith))

no_tokens-IsCost : (net : ℤ) → IsCost net (pos 0) (pos 0)
no_tokens-IsCost net =
    rw (mul_pos 0 0) (omega arith, omega (arith, max_ℤ_bounds (pos 0) net), inr (refl, refl))

none_of : (t : ℕ) → ltb_ℤ (pos 0) (pos t) ≡ false → 0 ≡ t
none_of t h = ground arith

if-IsCost :
    (net t : ℤ)
    → pos 0 ≤ℤ t
    → IsCost net t (if ltb_ℤ (pos 0) t then max_ℤ (pos 0) (net //ℤ t) else pos 0)
if-IsCost net (negsuc t) h = absurd (omega arith)
if-IsCost net (pos t) h =
    if_case (IsCost net (pos t)) (ltb_ℤ (pos 0) (pos t)) (λ e. floor-IsCost net t (ground arith))
      (λ e. subst (λ t. IsCost net (pos t) (pos 0)) (none_of t e) (no_tokens-IsCost net))

sum_nonneg : (os : List CalibrationObservation) → All IsMeasured os → pos 0 ≤ℤ sum tokens_of os
sum_nonneg [] h = omega arith
sum_nonneg (o ∷ os) h = omega (int_laws, sum_nonneg os h.1, h.0.prompt, h.0.output)

-- The KV cost of a profile is the greatest whole number of bytes per token that, for the tokens of
-- all observations, stays within the memory that was measured beyond the overheads; it is 0 when
-- that is negative and when no token was observed.
pub built-IsCost :
    (key : CalibrationKey) (os : List CalibrationObservation) (p : CalibrationProfile)
    → build_calibration_profile key os ≡ ok p
    → IsCost
        (sum (λ o. o.actual_dynamic_vram_bytes) os -ℤ sum overhead_of os)
        (sum tokens_of os)
        p.kv_bytes_per_token
unfolding profile_of kv_cost
built-IsCost key os p h =
    let e = ap (λ p. p.kv_bytes_per_token) (built_of key os h) in
    let (_, all) = (built_iff key os).0 (p, h) in
    rw e (
      rw
        (
          zero_add (sum tokens_of os),
          zero_add (sum overhead_of os),
          zero_add (sum (λ o. o.actual_dynamic_vram_bytes) os),
        )
        (if-IsCost _ _ (sum_nonneg os all)))
