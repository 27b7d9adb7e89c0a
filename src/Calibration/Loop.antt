-- ===== src/Calibration/Loop.antt =====
-- The loop of `build_calibration_profile`: sums and maxima over the observations.
use vvz_lmrs.Prelude.{◌≡◌, ◌↔◌, refl, arith, List, [], ◌∷◌, All, ok, >>=-eq-ok, if◌then◌else◌}
use vvz_lmrs.Prelude.Int.{ℤ, pos, ◌+ℤ◌, max_ℤ, ◌≤ℤ◌, ltb_ℤ, int_laws}
use vvz_lmrs.Calibration.{
  CalibrationObservation, Sums, check_observation, add_observation, accumulate,
}

-- No figure of an observation is negative.
pub record IsMeasured (o : CalibrationObservation) : Type 0 where
  pub prompt : pos 0 ≤ℤ o.prompt_tokens
  pub output : pos 0 ≤ℤ o.output_tokens
  pub predicted : pos 0 ≤ℤ o.predicted_dynamic_vram_bytes
  pub actual : pos 0 ≤ℤ o.actual_dynamic_vram_bytes
  pub per_request : pos 0 ≤ℤ o.per_request_overhead_bytes
  pub batch : pos 0 ≤ℤ o.runtime_batch_overhead_bytes

-- The sum and the maximum of a figure over observations; the maximum is at least 0.
abbrev pub sum : (CalibrationObservation → ℤ) → List CalibrationObservation → ℤ
sum f [] = pos 0
sum f (o ∷ os) = f o +ℤ sum f os

abbrev pub maximum : (CalibrationObservation → ℤ) → List CalibrationObservation → ℤ
maximum f [] = pos 0
maximum f (o ∷ os) = max_ℤ (f o) (maximum f os)

abbrev pub tokens_of : CalibrationObservation → ℤ
tokens_of o = o.prompt_tokens +ℤ o.output_tokens

abbrev pub overhead_of : CalibrationObservation → ℤ
overhead_of o = o.per_request_overhead_bytes +ℤ o.runtime_batch_overhead_bytes

-- The figures that the loop makes of `os`, from those that it starts with.
abbrev pub sums_from : Sums → List CalibrationObservation → Sums
sums_from s os = record {
  total_tokens = s.total_tokens +ℤ sum tokens_of os;
  total_actual_vram = s.total_actual_vram +ℤ sum (λ o. o.actual_dynamic_vram_bytes) os;
  total_overhead = s.total_overhead +ℤ sum overhead_of os;
  max_per_request_overhead =
      max_ℤ s.max_per_request_overhead (maximum (λ o. o.per_request_overhead_bytes) os);
  max_batch_overhead =
      max_ℤ s.max_batch_overhead (maximum (λ o. o.runtime_batch_overhead_bytes) os);
}

pub add_zero : (a : ℤ) → a +ℤ pos 0 ≡ a
add_zero a = grind int_laws

pub zero_add : (a : ℤ) → pos 0 +ℤ a ≡ a
zero_add a = grind int_laws

pub add_assoc : (a b c : ℤ) → (a +ℤ b) +ℤ c ≡ a +ℤ (b +ℤ c)
add_assoc a b c = grind int_laws

pub max_assoc : (a b c : ℤ) → max_ℤ (if ltb_ℤ a b then b else a) c ≡ max_ℤ a (max_ℤ b c)
unfolding max_ℤ
max_assoc a b c = ground arith

pub max_zero : (a : ℤ) → pos 0 ≤ℤ a → max_ℤ a (pos 0) ≡ a
unfolding max_ℤ
max_zero a h = ground arith

pub check_observation_iff :
    (o : CalibrationObservation) → (check_observation o ≡ ok tt) ↔ IsMeasured o
unfolding check_observation
check_observation_iff o = ground arith

pub accumulate_lem :
    (os : List CalibrationObservation) (s : Sums)
    → All IsMeasured os
    → pos 0 ≤ℤ s.max_per_request_overhead
    → pos 0 ≤ℤ s.max_batch_overhead
    → accumulate os s ≡ ok (sums_from s os)
unfolding accumulate
accumulate_lem [] s h p q =
    rw
      (
        add_zero s.total_tokens,
        add_zero s.total_actual_vram,
        add_zero s.total_overhead,
        max_zero s.max_per_request_overhead p,
        max_zero s.max_batch_overhead q,
      )
      refl
accumulate_lem (o ∷ os) s h p q =
    let rest =
      accumulate_lem os (add_observation o s) h.1 (unfold add_observation in ground arith)
        (unfold add_observation in ground arith) in
    rw ((check_observation_iff o).1 h.0, rest)
      (unfold add_observation in simp (add_assoc, max_assoc))

pub accumulate-All :
    (os : List CalibrationObservation) (s t : Sums) → accumulate os s ≡ ok t → All IsMeasured os
unfolding accumulate
accumulate-All [] s t h = tt
accumulate-All (o ∷ os) s t h =
    let (u, e, k) = >>=-eq-ok (check_observation o) (λ _. accumulate os (add_observation o s)) h in
    ((check_observation_iff o).0 e, accumulate-All os (add_observation o s) t k)
