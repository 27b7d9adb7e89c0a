-- ===== src/Examples/Memory.antt =====
-- Examples of the theorems on VRAM pools, the store of measurements and calibration.
use vvz_lmrs.Prelude.{◌≡◌, ◌↔◌, ◌≢◌, refl, true, false, none, some, List, [], ◌∷◌, All, ok}
use vvz_lmrs.Prelude.Int.{ℤ, pos, ◌+ℤ◌, ◌-ℤ◌, ◌//ℤ◌, max_ℤ}
use vvz_lmrs.Prelude.Dict.{lookup}
use vvz_lmrs.Prelude.Value.{Value}
use vvz_lmrs.Vram.{VramRuntimeFacts, DynamicVramState}
use vvz_lmrs.Vram.Store.{
  GpuMemoryMeasurement, StoredFile, missing, document, written, refused, torn, read,
}
use vvz_lmrs.Vram.Store.Honest.{IsHonest, unknown}
use vvz_lmrs.Vram.Store.History.{
  Entry, baseline, loaded, replay, HoldsBaseline, replay-IsHonest, replay_keeps_baseline,
}
use vvz_lmrs.Calibration.{
  profile_of, accumulate, check_observation, add_observation, kv_cost, CalibrationKey,
  CalibrationObservation, CalibrationProfile, build_calibration_profile,
}
use vvz_lmrs.Calibration.Loop.{IsMeasured}
use vvz_lmrs.Calibration.Profile.{IsCost, built_iff, built-IsCost}

abbrev facts : VramRuntimeFacts
facts = record {
  resident_services = [];
  service_baseline_free_vram_bytes = pos 900;
  model_loaded_free_vram_bytes = some (pos 300);
  model_name = none;
  runtime_backend = none;
  quantization_profile = none;
  hardware_profile_id = none;
  measurement_metadata = [];
}

abbrev state : DynamicVramState
state = record {
  model_loaded_free_vram_bytes = pos 300;
  safety_margin_bytes = pos 50;
  runtime_reserve_bytes = pos 50;
  active_reservation_bytes = pos 80;
}

-- a reading of `free` bytes
abbrev reading : ℤ → GpuMemoryMeasurement
reading free = record {
  is_ok = true;
  total_bytes = pos 1000;
  free_bytes = free;
  used_bytes = pos 1000 -ℤ free;
  devices = [];
  measured_at = "t0";
  source = "nvidia-smi";
  error = none;
}

abbrev history : List Entry
history =
    baseline (reading (pos 900)) [] false written
    ∷ loaded "qwen" (reading (pos 300)) "vllm" "awq" written
    ∷ baseline (reading (pos 300)) [] true written
    ∷ loaded "qwen" (reading (pos 290)) "vllm" "awq" (torn "disk full")
    ∷ []

replay-IsHonest_example : IsHonest (read (replay history missing))
replay-IsHonest_example = replay-IsHonest history missing (unfold read lookup in unknown)

abbrev stored : StoredFile
stored = document (
    ("baseline_model_served", Value.bool false)
    ∷ ("service_baseline_free_vram_bytes", Value.int (pos 900))
    ∷ [])

abbrev running : List Entry
running =
    baseline (reading (pos 300)) [] true written
    ∷ loaded "qwen" (reading (pos 290)) "vllm" "awq" (refused "read-only")
    ∷ loaded "qwen" (reading (pos 280)) "vllm" "awq" written
    ∷ []

replay_keeps_baseline_example : HoldsBaseline (pos 900) (read (replay running stored))
replay_keeps_baseline_example =
    replay_keeps_baseline running (pos 900) stored (refl, (refl, (refl, tt)))
      (unfold read lookup in (refl, refl))

abbrev key : CalibrationKey
key = record {
  model_name = "qwen";
  runtime_backend = "vllm";
  quantization_profile = "awq";
  hardware_profile_id = "card";
  tokenizer_profile = none;
  metadata = [];
}

abbrev observation : ℤ → ℤ → CalibrationObservation
observation actual overhead = record {
  prompt_tokens = pos 80;
  output_tokens = pos 20;
  predicted_dynamic_vram_bytes = pos 400;
  actual_dynamic_vram_bytes = actual;
  per_request_overhead_bytes = overhead;
  runtime_batch_overhead_bytes = pos 10;
  metadata = [];
}

abbrev observations : List CalibrationObservation
observations = observation (pos 450) (pos 30) ∷ observation (pos 500) (pos 40) ∷ []

abbrev profile : CalibrationProfile
profile = record {
  key = key;
  kv_bytes_per_token = pos 4;
  per_request_overhead_bytes = pos 40;
  runtime_batch_overhead_bytes = pos 10;
  observation_count = 2;
  source = "empirical";
  valid = true;
  invalidation_reason = none;
  metadata = [];
}

built_iff_example :
    ((p : CalibrationProfile) × (build_calibration_profile key observations ≡ ok p))
    ↔ ((observations ≢ []) × All IsMeasured observations)
built_iff_example = built_iff key observations

built : build_calibration_profile key observations ≡ ok profile
unfolding build_calibration_profile profile_of accumulate check_observation add_observation kv_cost
    ◌+ℤ◌ ◌-ℤ◌ ◌//ℤ◌ max_ℤ
built = refl

built-IsCost_example : IsCost (pos 860) (pos 200) (pos 4)
unfolding ◌+ℤ◌ ◌-ℤ◌
built-IsCost_example = built-IsCost key observations profile built
