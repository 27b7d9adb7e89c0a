-- ===== src/Calibration.antt =====
-- lmrs/calibration.py: the profile of KV and overhead costs that observations of a runtime give.
pub mod Loop
pub mod Profile
use vvz_lmrs.Prelude.{
  ℕ, String, Bool, true, ◌||◌, Option, none, List, [], ◌∷◌, length, Result, ok, err, value_error,
  ◌>>=◌, ◌>>◌, raise_if, if◌then◌else◌,
}
use vvz_lmrs.Prelude.Int.{ℤ, pos, ◌+ℤ◌, ◌-ℤ◌, ◌//ℤ◌, max_ℤ, ltb_ℤ}
use vvz_lmrs.Prelude.Dict.{Dict}

pub record CalibrationKey : Type 0 where
  pub model_name : String
  pub runtime_backend : String
  pub quantization_profile : String
  pub hardware_profile_id : String
  pub tokenizer_profile : Option String
  pub metadata : Dict String

pub record CalibrationObservation : Type 0 where
  pub prompt_tokens : ℤ
  pub output_tokens : ℤ
  pub predicted_dynamic_vram_bytes : ℤ
  pub actual_dynamic_vram_bytes : ℤ
  pub per_request_overhead_bytes : ℤ
  pub runtime_batch_overhead_bytes : ℤ
  pub metadata : Dict String

pub record CalibrationProfile : Type 0 where
  pub key : CalibrationKey
  pub kv_bytes_per_token : ℤ
  pub per_request_overhead_bytes : ℤ
  pub runtime_batch_overhead_bytes : ℤ
  pub observation_count : ℕ
  pub source : String
  pub valid : Bool
  pub invalidation_reason : Option String
  pub metadata : Dict String

-- the running figures of the loop of `build_calibration_profile`
pub record Sums : Type 0 where
  pub total_tokens : ℤ
  pub total_actual_vram : ℤ
  pub total_overhead : ℤ
  pub max_per_request_overhead : ℤ
  pub max_batch_overhead : ℤ

abbrev pub no_sums : Sums
no_sums = record {
  total_tokens = pos 0;
  total_actual_vram = pos 0;
  total_overhead = pos 0;
  max_per_request_overhead = pos 0;
  max_batch_overhead = pos 0;
}

-- the guards of one round of the loop
unfoldable pub check_observation : CalibrationObservation → Result (Unit {0})
check_observation o = do
  raise_if (ltb_ℤ o.prompt_tokens (pos 0) || ltb_ℤ o.output_tokens (pos 0))
      (value_error "token counts must be non-negative")
  raise_if
      (ltb_ℤ o.actual_dynamic_vram_bytes (pos 0) || ltb_ℤ o.predicted_dynamic_vram_bytes (pos 0))
      (value_error "VRAM byte values must be non-negative")
  raise_if
      (ltb_ℤ o.per_request_overhead_bytes (pos 0) || ltb_ℤ o.runtime_batch_overhead_bytes (pos 0))
      (value_error "overhead byte values must be non-negative")
  ok tt

-- the updates of one round
unfoldable pub add_observation : CalibrationObservation → Sums → Sums
add_observation o s = record {
  total_tokens = s.total_tokens +ℤ (o.prompt_tokens +ℤ o.output_tokens);
  total_actual_vram = s.total_actual_vram +ℤ o.actual_dynamic_vram_bytes;
  total_overhead =
      s.total_overhead +ℤ (o.per_request_overhead_bytes +ℤ o.runtime_batch_overhead_bytes);
  max_per_request_overhead =
      if ltb_ℤ s.max_per_request_overhead o.per_request_overhead_bytes
      then o.per_request_overhead_bytes
      else s.max_per_request_overhead;
  max_batch_overhead =
      if ltb_ℤ s.max_batch_overhead o.runtime_batch_overhead_bytes
      then o.runtime_batch_overhead_bytes
      else s.max_batch_overhead;
}

unfoldable pub accumulate : List CalibrationObservation → Sums → Result Sums
unfolding check_observation add_observation
accumulate [] s = ok s
accumulate (o ∷ os) s = check_observation o >> accumulate os (add_observation o s)

unfoldable pub kv_cost : Sums → ℤ
kv_cost s =
    if ltb_ℤ (pos 0) s.total_tokens
    then max_ℤ (pos 0) ((s.total_actual_vram -ℤ s.total_overhead) //ℤ s.total_tokens)
    else pos 0

unfoldable pub profile_of : CalibrationKey → ℕ → Sums → CalibrationProfile
unfolding kv_cost
profile_of key count s = record {
  key = key;
  kv_bytes_per_token = kv_cost s;
  per_request_overhead_bytes = s.max_per_request_overhead;
  runtime_batch_overhead_bytes = s.max_batch_overhead;
  observation_count = count;
  source = "empirical";
  valid = true;
  invalidation_reason = none;
  metadata = [];
}

unfoldable pub build_calibration_profile :
    CalibrationKey → List CalibrationObservation → Result CalibrationProfile
unfolding accumulate profile_of
build_calibration_profile key [] = err (value_error "observations must not be empty")
build_calibration_profile key (o ∷ os) = do
  s ← accumulate (o ∷ os) no_sums
  ok (profile_of key (length (o ∷ os)) s)
