-- ===== src/Examples/Capacities.antt =====
-- Examples of the theorems on the held queue and the capacity.
use vvz_lmrs.Prelude.{
  ℕ, ◌≡◌, refl, arith, String, Bool, true, false, none, or_else, List, [], ◌∷◌, Returns,
}
use vvz_lmrs.Prelude.Int.{pos, ◌≤ℤ◌}
use vvz_lmrs.Prelude.Dict.{lookup}
use vvz_lmrs.Prelude.Value.{Value, Items}
use vvz_lmrs.Admission.{CapacitySnapshot, decide_admission, evaluate_lmcache_admission}
use vvz_lmrs.Lifecycle.{ProbeResult}
use vvz_lmrs.Vram.Store.{GpuMemoryMeasurement, StoredFile, written, read}
use vvz_lmrs.Capacity.Holder.{
  QueueEvent, admitted, cancelled, run_events, run_ledger, ledger_of, run_refines,
}
use vvz_lmrs.Capacity.Payload.{Settings, capacity_snapshot, free_of}
use vvz_lmrs.Capacity.Bounded.{capacity_bounded, unmeasured_reject}
use vvz_lmrs.Examples.Data.{entry_of, waiting, estimate_on}

abbrev events : List QueueEvent
events = admitted (entry_of "c" 200) ∷ cancelled "a" ∷ admitted (entry_of "a" 50) ∷ []

run_refines_example :
    ledger_of (run_events events waiting) "a" ≡ run_ledger events (ledger_of waiting) "a"
run_refines_example = run_refines events waiting "a"

abbrev measurement : Bool → GpuMemoryMeasurement
measurement is_ok = record {
  is_ok = is_ok;
  total_bytes = pos 1000;
  free_bytes = pos 600;
  used_bytes = pos 400;
  devices = [];
  measured_at = "12:00";
  source = "nvidia-smi";
  error = none;
}

abbrev settings : Settings
settings = record {
  resident_services_text = none;
  safety_margin_text = none;
  runtime_reserve_text = none;
  hardware_profile_id = none;
}

abbrev silent : ProbeResult
silent = record { is_ok = false; served_models = []; metadata = none; error = none }

abbrev listing : ℕ → ProbeResult × ℕ
listing s = (silent, s)

abbrev asking : String → ℕ → ProbeResult × ℕ
asking name s = (silent, s)

capacity_bounded_example :
    Returns
      (capacity_snapshot listing asking "qwen"
        (measurement true)
        settings
        none
        waiting
        written
        StoredFile.missing
        0).0
      (λ c.
        (pos 0 ≤ℤ c.usable_dynamic_vram_bytes)
        × (c.usable_dynamic_vram_bytes ≤ℤ c.max_dynamic_pool_bytes)
        × (c.max_dynamic_pool_bytes
            ≤ℤ or_else (free_of (measurement true) (read StoredFile.missing)) (pos 0)))
unfolding free_of read
capacity_bounded_example =
    capacity_bounded listing asking "qwen" (measurement true) settings none waiting written
      StoredFile.missing 0 (omega arith) (omega arith, (omega arith, tt))

abbrev nothing_measured : CapacitySnapshot
nothing_measured = record {
  usable_dynamic_vram_bytes = pos 0;
  max_dynamic_pool_bytes = pos 0;
  model_loaded = false;
  runtime_ready = false;
  metadata =
      ("measured", Value.bool false)
      ∷ ("served_models", Value.list Items.nil)
      ∷ ("probe_error", Value.null)
      ∷ [];
}

unmeasured_reject_example :
    (decide_admission (estimate_on 0) nothing_measured false none).decision ≡ "would_reject"
unfolding capacity_snapshot free_of read lookup evaluate_lmcache_admission
unmeasured_reject_example =
    unmeasured_reject listing asking "qwen" (measurement false) settings none waiting written
      StoredFile.missing 0 (estimate_on 0) false none nothing_measured refl
      (omega arith, (omega arith, tt)) refl (omega arith)
