-- ===== src/Capacity/Payload.antt =====
-- lmrs/adapter/registration.py: `vram_payload` and `capacity_snapshot`.
use vvz_lmrs.Prelude.{
  String, Bool, true, false, not, ◌&&◌, ◌||◌, ◌==◌, Option, none, some, or_else, is_some, List, [],
  ◌∷◌, Result, ok, err, ◌>>=◌, if◌then◌else◌,
}
use vvz_lmrs.Prelude.Int.{ℤ, pos, ◌-ℤ◌, leb_ℤ}
use vvz_lmrs.Prelude.Dict.{Dict, lookup}
use vvz_lmrs.Prelude.Value.{Value}
use vvz_lmrs.Queue.{RequestQueue}
use vvz_lmrs.Lifecycle.{ModelResidency, ProbeResult, texts, text_or_null}
use vvz_lmrs.Admission.{CapacitySnapshot}
use vvz_lmrs.Vram.{DynamicVramState, calculate_max_dynamic_pool, calculate_usable_dynamic_vram}
use vvz_lmrs.Vram.Store.{
  GpuMemoryMeasurement, StoredFile, WriteOutcome, read, as_int, is_truthy, record_service_baseline,
}
use vvz_lmrs.Capacity.{int_env, reserved_bytes, resident_services}

-- The environment variables that the payload reads.
pub record Settings : Type 0 where
  pub resident_services_text : Option String
  pub safety_margin_text : Option String
  pub runtime_reserve_text : Option String
  pub hardware_profile_id : Option String

-- The payload of the `capacity` command; `measurement_metadata` is kept by its parts.
pub record VramPayload : Type 0 where
  pub services : List String
  pub service_baseline_free_vram_bytes : Option ℤ
  pub model_loaded_free_vram_bytes : Option ℤ
  pub measured_model_static_vram_bytes : Option ℤ
  pub max_dynamic_pool_bytes : ℤ
  pub usable_dynamic_vram_bytes : ℤ
  pub active_reservation_bytes : ℤ
  pub total_vram_bytes : Value
  pub model_name : Value
  pub runtime_backend : String
  pub quantization_profile : Value
  pub hardware_profile_id : Option String
  pub measurement_source : String
  pub measured_at : String
  pub devices : List (Dict ℤ)
  pub measurement_error : Option String
  pub baseline_measured_at : Value
  pub baseline_model_served : Value
  pub static_vram_unavailable_reason : Value
  pub measured : Bool
  pub safety_margin_bytes : ℤ
  pub runtime_reserve_bytes : ℤ

abbrev value_or_null : Option Value → Value
value_or_null v = or_else v Value.null

-- the free memory now, or else the one on record
unfoldable pub free_of : GpuMemoryMeasurement → Dict Value → Option ℤ
unfolding as_int
free_of m stored =
    if m.is_ok then some m.free_bytes else as_int (lookup "model_loaded_free_vram_bytes" stored)

unfoldable pub static_of : Option ℤ → Option ℤ → Option ℤ
static_of (some baseline) (some free) =
    if leb_ℤ free baseline then some (baseline -ℤ free) else none
static_of _ _ = none

unfoldable pub state_of : Option ℤ → Settings → RequestQueue → DynamicVramState
unfolding int_env reserved_bytes
state_of free settings q = record {
  model_loaded_free_vram_bytes = or_else free (pos 0);
  safety_margin_bytes = int_env settings.safety_margin_text (pos 0);
  runtime_reserve_bytes = int_env settings.runtime_reserve_text (pos 0);
  active_reservation_bytes = reserved_bytes q;
}

-- `calculate(state) if free_bytes is not None else 0`
unfoldable pub when_free : Option ℤ → Result ℤ → Result ℤ
when_free none figure = ok (pos 0)
when_free (some free) figure = figure

abbrev is_empty : List String → Bool
is_empty [] = true
is_empty (s ∷ ss) = false

module _ {S : Type 0} (list_models : S → ProbeResult × S)
    (is_model_served : String → S → ProbeResult × S) where
  -- the first baseline, where none is known and no model is resident
  unfoldable pub baseline_step :
      GpuMemoryMeasurement
      → Settings
      → Option ModelResidency
      → WriteOutcome
      → StoredFile
      → S
      → Dict Value × StoredFile × S
  unfolding read as_int record_service_baseline resident_services
  baseline_step m settings residency outcome file s =
      let stored = read file in
      if m.is_ok
        && not (is_some (as_int (lookup "service_baseline_free_vram_bytes" stored)))
        && not (is_some residency)
      then (let (probe, t) = list_models s in
          let (facts, after) =
            record_service_baseline m (resident_services settings.resident_services_text)
              (probe.is_ok && not (is_empty probe.served_models)) outcome file in
          (facts, after, t))
      else (stored, file, s)

  unfoldable pub baseline_of : Dict Value → Option ℤ
  unfolding as_int is_truthy
  baseline_of stored =
      if is_truthy (lookup "baseline_model_served" stored)
      then none
      else as_int (lookup "service_baseline_free_vram_bytes" stored)

  abbrev total_of : GpuMemoryMeasurement → Dict Value → Value
  total_of m stored =
      if m.is_ok then Value.int m.total_bytes else value_or_null (lookup "total_vram_bytes" stored)

  abbrev name_of : Option ModelResidency → Dict Value → Value
  name_of none stored = value_or_null (lookup "model_name" stored)
  name_of (some res) stored = Value.text res.model_name

  unfoldable pub payload_of :
      GpuMemoryMeasurement
      → Settings
      → Option ModelResidency
      → RequestQueue
      → Option ℤ
      → Dict Value
      → Result VramPayload
  unfolding baseline_of static_of state_of when_free resident_services
  payload_of m settings residency q free stored =
      let state = state_of free settings q in
      when_free free (calculate_max_dynamic_pool state) >>= λ pool.
      when_free free (calculate_usable_dynamic_vram state) >>= λ usable. ok (record {
        services = resident_services settings.resident_services_text;
        service_baseline_free_vram_bytes = baseline_of stored;
        model_loaded_free_vram_bytes = free;
        measured_model_static_vram_bytes = static_of (baseline_of stored) free;
        max_dynamic_pool_bytes = pool;
        usable_dynamic_vram_bytes = usable;
        active_reservation_bytes = state.active_reservation_bytes;
        total_vram_bytes = total_of m stored;
        model_name = name_of residency stored;
        runtime_backend = "vllm";
        quantization_profile = value_or_null (lookup "quantization_profile" stored);
        hardware_profile_id = settings.hardware_profile_id;
        measurement_source = m.source;
        measured_at = m.measured_at;
        devices = m.devices;
        measurement_error = m.error;
        baseline_measured_at = value_or_null (lookup "baseline_measured_at" stored);
        baseline_model_served = value_or_null (lookup "baseline_model_served" stored);
        static_vram_unavailable_reason =
            value_or_null (lookup "static_vram_unavailable_reason" stored);
        measured = m.is_ok;
        safety_margin_bytes = state.safety_margin_bytes;
        runtime_reserve_bytes = state.runtime_reserve_bytes;
      })

  unfoldable pub vram_payload :
      GpuMemoryMeasurement
      → Settings
      → Option ModelResidency
      → RequestQueue
      → WriteOutcome
      → StoredFile
      → S
      → Result VramPayload × StoredFile × S
  unfolding read free_of baseline_step payload_of
  vram_payload m settings residency q outcome file s =
      let (stored, after, t) = baseline_step m settings residency outcome file s in
      (payload_of m settings residency q (free_of m (read file)) stored, after, t)

  abbrev resides : String → Option ModelResidency → Bool
  resides model_name none = false
  resides model_name (some res) = res.model_name == model_name

  unfoldable pub snapshot_of :
      String → Option ModelResidency → VramPayload → ProbeResult → CapacitySnapshot
  unfolding texts
  snapshot_of model_name residency p probe = record {
    usable_dynamic_vram_bytes = p.usable_dynamic_vram_bytes;
    max_dynamic_pool_bytes = p.max_dynamic_pool_bytes;
    model_loaded = probe.is_ok || resides model_name residency;
    runtime_ready = probe.is_ok;
    metadata =
        ("measured", Value.bool p.measured)
        ∷ ("served_models", Value.list (texts probe.served_models))
        ∷ ("probe_error", text_or_null probe.error)
        ∷ [];
  }

  unfoldable pub snapshot_read :
      String
      → Option ModelResidency
      → Result VramPayload × StoredFile × S
      → Result CapacitySnapshot × StoredFile × S
  unfolding snapshot_of
  snapshot_read model_name residency (err e, file, s) = (err e, file, s)
  snapshot_read model_name residency (ok p, file, s) =
      let (probe, t) = is_model_served model_name s in
      (ok (snapshot_of model_name residency p probe), file, t)

  unfoldable pub capacity_snapshot :
      String
      → GpuMemoryMeasurement
      → Settings
      → Option ModelResidency
      → RequestQueue
      → WriteOutcome
      → StoredFile
      → S
      → Result CapacitySnapshot × StoredFile × S
  unfolding snapshot_read vram_payload
  capacity_snapshot model_name m settings residency q outcome file s =
      snapshot_read model_name residency (vram_payload m settings residency q outcome file s)
