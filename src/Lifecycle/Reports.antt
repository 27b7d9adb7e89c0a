-- ===== src/Lifecycle/Reports.antt =====
-- `reload_model` and `model_status` of `ModelMemoryLifecycle`.
use vvz_lmrs.Prelude.{
  ◌≡◌, ◌↔◌, refl, arith, inl, eq_iff, String, true, false, not, ◌==◌, Option, none, some, Result,
  if_case,
}
use vvz_lmrs.Prelude.Dict.{Dict}
use vvz_lmrs.Prelude.Value.{Value}
use vvz_lmrs.Lifecycle.{
  ModelResidency, ModelMemoryLifecycle, ProbeResult, DiskCache, LifecycleCommandResult,
}
use vvz_lmrs.Lifecycle.Unload.{reload_model, reload_of, model_status, status_of}
use vvz_lmrs.Lifecycle.Residency.{Resides, LoadEnds, load_ends}

module _ {S : Type 0} (model_probe : Option (String → S → Result ProbeResult × S))
    (disk_cache : Option (DiskCache S))
    (vram_recorder : Option (String → S → Result (Dict Value) × S)) (clock : S → String) where
  reload_of_ends :
      (o : Option ModelResidency) (name : String) (m : ModelMemoryLifecycle) (s : S)
      → m.current_residency ≡ o
      → LoadEnds model_probe disk_cache vram_recorder clock name m
          (reload_of model_probe disk_cache vram_recorder clock o name m s)
  unfolding reload_of
  reload_of_ends none name m s h =
      load_ends model_probe disk_cache vram_recorder clock name true m s
  reload_of_ends (some res) name m s h =
      if_case (LoadEnds model_probe disk_cache vram_recorder clock name m)
        (not (res.model_name == name))
        (λ _. load_ends model_probe disk_cache vram_recorder clock name true m s)
        (λ e.
          inl (refl, (_, refl, refl), inl (res, h, (eq_iff res.model_name name).0 (ground arith))))

  -- A reload that reports success leaves its model resident, which it was before or which the runtime
  -- probe, where there is one, said it serves; one that fails or raises leaves the lifecycle as it was.
  pub reload_ends :
      (name : String) (m : ModelMemoryLifecycle) (s : S)
      → LoadEnds model_probe disk_cache vram_recorder clock name m
          (reload_model model_probe disk_cache vram_recorder clock name m s)
  unfolding reload_model
  reload_ends name m s = reload_of_ends m.current_residency name m s refl

absent :
    (name : String) (m : ModelMemoryLifecycle) → m.current_residency ≡ none → Resides name m → ⊥
absent name m h (res, k, _) = cc

other :
    (name : String) (m : ModelMemoryLifecycle) (res : ModelResidency)
    → m.current_residency ≡ some res
    → (res.model_name == name) ≡ false
    → Resides name m
    → ⊥
other name m res h e (res', k, same) = cc (e, (eq_iff res.model_name name).1 (cc (h, k, same)))

status_of_iff :
    (o : Option ModelResidency) (name : String) (m : ModelMemoryLifecycle)
    → m.current_residency ≡ o
    → ((status_of o name).success ≡ true) ↔ Resides name m
unfolding status_of
status_of_iff none name m h = (λ e. cc, λ r. absurd (absent name m h r))
status_of_iff (some res) name m h =
    if_case (λ (r : LifecycleCommandResult). (r.success ≡ true) ↔ Resides name m)
      (not (res.model_name == name))
      (λ e. (λ f. cc, λ r. absurd (other name m res h (ground arith) r)))
      (λ e. (λ _. (res, h, (eq_iff res.model_name name).0 (ground arith)), λ _. refl))

-- The status of a model reports success exactly when the model is the resident one.
pub status_iff :
    (name : String) (m : ModelMemoryLifecycle)
    → ((model_status name m).success ≡ true) ↔ Resides name m
unfolding model_status
status_iff name m = status_of_iff m.current_residency name m refl
