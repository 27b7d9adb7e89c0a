-- ===== src/Lifecycle/Unload.antt =====
-- lmrs/model_lifecycle.py: the methods of `ModelMemoryLifecycle` that unload, reload and report.
use vvz_lmrs.Prelude.{
  String, true, false, not, ◌==◌, Option, none, some, [], ◌∷◌, Result, ok, if◌then◌else◌,
}
use vvz_lmrs.Prelude.Dict.{Dict}
use vvz_lmrs.Prelude.Value.{Value}
use vvz_lmrs.Lifecycle.{
  ModelResidency, LifecycleCommandResult, ModelMemoryLifecycle, ProbeResult, DiskCache, ◌then◌,
}
use vvz_lmrs.Lifecycle.Memory.{bare_result, measured_result, Ended, load_model}

module _ {S : Type 0} (model_probe : Option (String → S → Result ProbeResult × S))
    (disk_cache : Option (DiskCache S))
    (vram_recorder : Option (String → S → Result (Dict Value) × S)) (clock : S → String) where
  unfoldable pub unload_resident :
      Option (String → S → Result ProbeResult × S)
      → ModelResidency
      → String
      → ModelMemoryLifecycle
      → LifecycleCommandResult × ModelMemoryLifecycle
  unload_resident (some _) previous name m = (
    measured_result "unload_model" name previous.state false
        (some "VLLM_DYNAMIC_UNLOAD_UNSUPPORTED") previous
        (("resident_model", Value.text previous.model_name)
          ∷ ("runtime_backend", Value.text previous.runtime_backend)
          ∷ []),
    m,
  )
  unload_resident none previous name m = (
    measured_result "unload_model" name "not_loaded" true none previous [],
    record m { current_residency = none },
  )

  unfoldable pub unload_of :
      Option ModelResidency
      → String
      → ModelMemoryLifecycle
      → LifecycleCommandResult × ModelMemoryLifecycle
  unfolding unload_resident
  unload_of none name m =
      (bare_result "unload_model" name "not_loaded" false (some "MODEL_NOT_LOADED") [], m)
  unload_of (some res) name m =
      if not (res.model_name == name)
      then (bare_result "unload_model" name "not_loaded" false (some "MODEL_NOT_LOADED") [], m)
      else unload_resident model_probe res name m

  unfoldable pub unload_model :
      String → ModelMemoryLifecycle → LifecycleCommandResult × ModelMemoryLifecycle
  unfolding unload_of
  unload_model name m = unload_of m.current_residency name m

  abbrev pub renewed : ModelResidency → String → ModelResidency
  renewed previous name = record previous { model_name = name; state = "loaded" }

  unfoldable pub reload_of : Option ModelResidency → String → ModelMemoryLifecycle → S → Ended S
  unfolding load_model
  reload_of none name m s = load_model model_probe disk_cache vram_recorder clock name true m s
  reload_of (some previous) name m s =
      if not (previous.model_name == name)
      then load_model model_probe disk_cache vram_recorder clock name true m s
      else (
        ok (
            measured_result "reload_model" name "loaded" true none previous
              (("reloaded", Value.bool true) ∷ [])),
        record m { current_residency = some (renewed previous name) },
        s,
      )

  unfoldable pub reload_model : String → ModelMemoryLifecycle → S → Ended S
  unfolding reload_of
  reload_model name m s = reload_of m.current_residency name m s

unfoldable pub status_of : Option ModelResidency → String → LifecycleCommandResult
status_of none name =
    bare_result "model_status" name "not_loaded" false (some "MODEL_NOT_LOADED") []
status_of (some res) name =
    if not (res.model_name == name)
    then bare_result "model_status" name "not_loaded" false (some "MODEL_NOT_LOADED") []
    else measured_result "model_status" name res.state true none res res.metadata

unfoldable pub model_status : String → ModelMemoryLifecycle → LifecycleCommandResult
unfolding status_of
model_status name m = status_of m.current_residency name

lifecycle_status_of : Option ModelResidency → LifecycleCommandResult
lifecycle_status_of none =
    bare_result "model_lifecycle_status" "" "not_loaded" true none
      (("resident_model", Value.null) ∷ [])
lifecycle_status_of (some res) =
    measured_result "model_lifecycle_status" res.model_name res.state true none res
      (("resident_model", Value.text res.model_name) ∷ [])

unfoldable pub model_lifecycle_status : ModelMemoryLifecycle → LifecycleCommandResult
unfolding lifecycle_status_of
model_lifecycle_status m = lifecycle_status_of m.current_residency
