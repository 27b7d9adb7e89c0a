-- ===== src/Lifecycle/Blocked.antt =====
-- A lifecycle with a runtime probe never gives up a resident model, so that no switch away from one
-- goes through.
use vvz_lmrs.Prelude.{
  ◌≡◌, refl, sym, subst, inl, inr, String, true, false, not, ◌==◌, Option, some, is_some, Result,
  if◌then◌else◌,
}
use vvz_lmrs.Prelude.Dict.{Dict}
use vvz_lmrs.Prelude.Value.{Value}
use vvz_lmrs.Lifecycle.{
  ModelResidency, LifecycleCommandResult, ModelMemoryLifecycle, ProbeResult, DiskCache, Step,
  raised, returned, value, ◌then◌,
}
use vvz_lmrs.Lifecycle.Unload.{unload_model}
use vvz_lmrs.Lifecycle.Residency.{UnloadEnds, unload_ends}
use vvz_lmrs.Lifecycle.Switch.{
  SwitchResult, switch_failure, announce, unloaded, announced_unload, unload_beside, unload_stage,
  caught, load_stage, after_preload, switch_stages,
}
use vvz_lmrs.Lifecycle.Switching.{StopsFailed, announce_lem, preload_stage_lem}

-- A stage that stops and leaves the lifecycle as it was.
abbrev StageBlocked :
    {S A : Type 0} → ModelMemoryLifecycle → Step SwitchResult A × ModelMemoryLifecycle × S → Type 0
StageBlocked m (raised e, m', s) = m' ≡ m
StageBlocked m (returned r, m', s) = (r.status ≡ "failed") × (m' ≡ m)
StageBlocked m (value a, m', s) = ⊥

module _ {S : Type 0} (model_probe : Option (String → S → Result ProbeResult × S))
    (disk_cache : Option (DiskCache S))
    (vram_recorder : Option (String → S → Result (Dict Value) × S)) (clock : S → String)
    (progress_callback : Option (String → S → Result (Unit {0}) × S)) where
  fails_of_unload :
      (name : String) (m : ModelMemoryLifecycle)
      (out : LifecycleCommandResult × ModelMemoryLifecycle)
      → UnloadEnds model_probe disk_cache vram_recorder clock name m out
      → is_some model_probe ≡ true
      → (out.0.success ≡ false) × (out.1 ≡ m)
  fails_of_unload name m out (inl h) e = absurd (cc (h.2, e))
  fails_of_unload name m out (inr h) e = h

  unloaded_blocked :
      (m : ModelMemoryLifecycle) (name : String)
      (out : LifecycleCommandResult × ModelMemoryLifecycle) (s : S)
      → out.0.success ≡ false
      → out.1 ≡ m
      → StageBlocked m
          (unloaded model_probe disk_cache vram_recorder clock progress_callback out name s)
  unfolding unloaded switch_failure
  unloaded_blocked m name (r, m') s h k = rw h (refl, k)

  announced_unload_blocked :
      (m : ModelMemoryLifecycle) (resident name : String) (x : Step SwitchResult (Unit {0}) × S)
      → is_some model_probe ≡ true
      → StopsFailed x.0
      → StageBlocked m (
          announced_unload model_probe disk_cache vram_recorder clock progress_callback m resident
            name x)
  unfolding announced_unload
  announced_unload_blocked m resident name (raised e, s) probed h = refl
  announced_unload_blocked m resident name (returned r, s) probed h = (h, refl)
  announced_unload_blocked m resident name (value _, s) probed h =
      let out = unload_model model_probe disk_cache vram_recorder clock resident m in
      let (fails, kept) =
        fails_of_unload resident m out
          (unload_ends model_probe disk_cache vram_recorder clock resident m) probed in
      unloaded_blocked m name out s fails kept

  unload_stage_blocked :
      (m : ModelMemoryLifecycle) (name : String) (s : S) (res : ModelResidency)
      → is_some model_probe ≡ true
      → m.current_residency ≡ some res
      → (res.model_name == name) ≡ false
      → StageBlocked m
          (unload_stage model_probe disk_cache vram_recorder clock progress_callback m name s)
  unfolding unload_stage unload_beside
  unload_stage_blocked m name s res probed resident other =
      subst
        (λ o.
          StageBlocked m
            (unload_beside model_probe disk_cache vram_recorder clock progress_callback o m name s))
        (sym resident)
        (subst
          (λ b. StageBlocked m (
            if not b
            then announced_unload model_probe disk_cache vram_recorder clock progress_callback m
                res.model_name name
                (announce model_probe disk_cache vram_recorder clock progress_callback "unloading"
                  s)
            else (value tt, m, s)))
          (sym other)
          (announced_unload_blocked m res.model_name name _ probed (
            announce_lem model_probe disk_cache vram_recorder clock progress_callback "unloading"
              s)))

  load_stage_blocked :
      (m : ModelMemoryLifecycle) (name : String)
      (x : Step SwitchResult (Unit {0}) × ModelMemoryLifecycle × S)
      → StageBlocked m x
      → ((load_stage model_probe disk_cache vram_recorder clock progress_callback name x).0.status
          ≡ "failed")
        × ((load_stage model_probe disk_cache vram_recorder clock progress_callback name x).1 ≡ m)
  unfolding load_stage switch_failure caught
  load_stage_blocked m name (raised e, m1, s) h = (refl, h)
  load_stage_blocked m name (returned r, m1, s) h = h
  load_stage_blocked m name (value _, m1, s) h = absurd h

  after_preload_blocked :
      (m : ModelMemoryLifecycle) (name : String) (x : Step SwitchResult (Unit {0}) × S)
      → ((s : S)
          → StageBlocked m
              (unload_stage model_probe disk_cache vram_recorder clock progress_callback m name s))
      → StopsFailed x.0
      → ((after_preload model_probe disk_cache vram_recorder clock progress_callback m name
            x).0.status
          ≡ "failed")
        × ((after_preload model_probe disk_cache vram_recorder clock progress_callback m name x).1
            ≡ m)
  unfolding after_preload switch_failure caught
  after_preload_blocked m name (raised e, s) b h = (refl, refl)
  after_preload_blocked m name (returned r, s) b h = (h, refl)
  after_preload_blocked m name (value _, s) b h = load_stage_blocked m name _ (b s)

  -- With a runtime probe, a switch away from another resident model never succeeds: whatever its
  -- collaborators do it reports a failure, and the other model stays resident.
  pub switch_blocked :
      (cache : DiskCache S) (name : String) (m : ModelMemoryLifecycle) (s : S)
      (res : ModelResidency)
      → is_some model_probe ≡ true
      → m.current_residency ≡ some res
      → (res.model_name == name) ≡ false
      → ((switch_stages model_probe disk_cache vram_recorder clock progress_callback cache name m
            s).0.status
          ≡ "failed")
        × ((switch_stages model_probe disk_cache vram_recorder clock progress_callback cache name m
              s).1
            ≡ m)
  unfolding switch_stages
  switch_blocked cache name m s res probed resident other =
      after_preload_blocked m name _ (λ s. unload_stage_blocked m name s res probed resident other)
        (preload_stage_lem model_probe disk_cache vram_recorder clock progress_callback cache name
          s)
