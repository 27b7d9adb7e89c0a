-- ===== src/Lifecycle/KeptSwitch.antt =====
-- lmrs/model_lifecycle.py: what every collaborator keeps of the world, the stages of a switch keep.
use vvz_lmrs.Prelude.{String, true, not, ◌==◌, Option, none, some, Result, ok, err, if_case}
use vvz_lmrs.Prelude.Dict.{Dict}
use vvz_lmrs.Prelude.Value.{Value}
use vvz_lmrs.Lifecycle.{
  ModelResidency, ModelMemoryLifecycle, ProbeResult, CacheStatus, PreloadResult, DiskCache, Step,
  raised, returned, value, ◌then◌, is_cached,
}
use vvz_lmrs.Lifecycle.Memory.{Ended}
use vvz_lmrs.Lifecycle.Switch.{
  SwitchResult, of_call, report_of, announce, preloaded, checked, preload_stage, unloaded,
  announced_unload, unload_beside, unload_stage, loaded, announced_load, load_stage, after_preload,
  switch_stages,
}
use vvz_lmrs.Lifecycle.Unload.{unload_model}
use vvz_lmrs.Lifecycle.Kept.{CallKeeps, CacheKeeps, DiskKeeps, then-keeps, load_model-keeps}

module _ {S : Type 0} (Inv : S → Type 0)
    (model_probe : Option (String → S → Result ProbeResult × S)) (disk_cache : Option (DiskCache S))
    (vram_recorder : Option (String → S → Result (Dict Value) × S)) (clock : S → String)
    (progress_callback : Option (String → S → Result (Unit {0}) × S))
    (probe_keeps : CallKeeps Inv model_probe) (disk_keeps : DiskKeeps Inv disk_cache)
    (recorder_keeps : CallKeeps Inv vram_recorder)
    (callback_keeps : CallKeeps Inv progress_callback) where
  of_call-keeps :
      {A : Type 0} (out : Result A × S)
      → Inv out.1
      → Inv
          (of_call model_probe disk_cache vram_recorder clock progress_callback {X = SwitchResult}
            out).1
  unfolding of_call
  of_call-keeps (err e, s) h = h
  of_call-keeps (ok a, s) h = h

  report_of-keeps :
      (o : Option (String → S → Result (Unit {0}) × S)) (stage : String) (s : S)
      → CallKeeps Inv o
      → Inv s
      → Inv (report_of model_probe disk_cache vram_recorder clock progress_callback o stage s).1
  unfolding report_of
  report_of-keeps none stage s keeps h = h
  report_of-keeps (some callback) stage s keeps h =
      of_call-keeps (callback stage s) (keeps stage s h)

  announce-keeps :
      (stage : String) (s : S)
      → Inv s
      → Inv (announce model_probe disk_cache vram_recorder clock progress_callback stage s).1
  unfolding announce
  announce-keeps stage s h = report_of-keeps progress_callback stage s callback_keeps h

  preloaded-keeps :
      (name : String) (p : PreloadResult) (s : S)
      → Inv s
      → Inv (preloaded model_probe disk_cache vram_recorder clock progress_callback name p s).1
  unfolding preloaded
  preloaded-keeps name p s h =
      if_case (λ (x : Step SwitchResult (Unit {0}) × S). Inv x.1) (not p.success) (λ _. h) (λ _. h)

  checked-keeps :
      (cache : DiskCache S) (name : String) (c : CacheStatus) (s : S)
      → CacheKeeps Inv cache
      → Inv s
      → Inv (checked model_probe disk_cache vram_recorder clock progress_callback cache name c s).1
  unfolding checked
  checked-keeps cache name c s keeps h =
      let told =
        announce model_probe disk_cache vram_recorder clock progress_callback "preloading" s in
      let fetched : Unit {0} → S → Step SwitchResult PreloadResult × S = λ _ s.
        of_call model_probe disk_cache vram_recorder clock progress_callback
          (cache.preload name s) in
      if_case (λ (x : Step SwitchResult (Unit {0}) × S). Inv x.1) (not (is_cached c.status))
        (λ _.
          then-keeps Inv (told then fetched)
            (preloaded model_probe disk_cache vram_recorder clock progress_callback name)
            (then-keeps Inv told fetched (announce-keeps "preloading" s h)
              (λ _ s k. of_call-keeps (cache.preload name s) (keeps.1 name s k)))
            (λ p s k. preloaded-keeps name p s k))
        (λ _. h)

  preload_stage-keeps :
      (cache : DiskCache S) (name : String) (s : S)
      → CacheKeeps Inv cache
      → Inv s
      → Inv
          (preload_stage model_probe disk_cache vram_recorder clock progress_callback cache name
            s).1
  unfolding preload_stage
  preload_stage-keeps cache name s keeps h =
      then-keeps Inv
        (of_call model_probe disk_cache vram_recorder clock progress_callback (cache.status name s))
        (checked model_probe disk_cache vram_recorder clock progress_callback cache name)
        (of_call-keeps (cache.status name s) (keeps.0 name s h))
        (λ c s k. checked-keeps cache name c s keeps k)

  announced_unload-keeps :
      (m : ModelMemoryLifecycle) (resident name : String) (x : Step SwitchResult (Unit {0}) × S)
      → Inv x.1
      → Inv
          (announced_unload model_probe disk_cache vram_recorder clock progress_callback m resident
            name x).2
  unfolding announced_unload unloaded
  announced_unload-keeps m resident name (raised e, s) h = h
  announced_unload-keeps m resident name (returned r, s) h = h
  announced_unload-keeps m resident name (value _, s) h =
      if_case (λ (x : Step SwitchResult (Unit {0}) × ModelMemoryLifecycle × S). Inv x.2)
        (not (unload_model model_probe disk_cache vram_recorder clock resident m).0.success)
        (λ _. h) (λ _. h)

  unload_beside-keeps :
      (o : Option ModelResidency) (m : ModelMemoryLifecycle) (name : String) (s : S)
      → Inv s
      → Inv
          (unload_beside model_probe disk_cache vram_recorder clock progress_callback o m name s).2
  unfolding unload_beside
  unload_beside-keeps none m name s h = h
  unload_beside-keeps (some res) m name s h =
      if_case (λ (x : Step SwitchResult (Unit {0}) × ModelMemoryLifecycle × S). Inv x.2)
        (not (res.model_name == name))
        (λ _. announced_unload-keeps m res.model_name name _ (announce-keeps "unloading" s h))
        (λ _. h)

  loaded-keeps :
      (name : String) (out : Ended S)
      → Inv out.2
      → Inv (loaded model_probe disk_cache vram_recorder clock progress_callback name out).2
  unfolding loaded
  loaded-keeps name (err e, m, s) h = h
  loaded-keeps name (ok r, m, s) h =
      if_case (λ (x : SwitchResult × ModelMemoryLifecycle × S). Inv x.2) (not r.success) (λ _. h)
        (λ _. h)

  announced_load-keeps :
      (m : ModelMemoryLifecycle) (name : String) (x : Step SwitchResult (Unit {0}) × S)
      → Inv x.1
      → Inv (announced_load model_probe disk_cache vram_recorder clock progress_callback m name x).2
  unfolding announced_load
  announced_load-keeps m name (raised e, s) h = h
  announced_load-keeps m name (returned r, s) h = h
  announced_load-keeps m name (value _, s) h = loaded-keeps name _ (
      load_model-keeps Inv model_probe disk_cache vram_recorder clock probe_keeps disk_keeps
        recorder_keeps name true m s h)

  load_stage-keeps :
      (name : String) (x : Step SwitchResult (Unit {0}) × ModelMemoryLifecycle × S)
      → Inv x.2
      → Inv (load_stage model_probe disk_cache vram_recorder clock progress_callback name x).2
  unfolding load_stage
  load_stage-keeps name (raised e, m, s) h = h
  load_stage-keeps name (returned r, m, s) h = h
  load_stage-keeps name (value _, m, s) h =
      announced_load-keeps m name _ (announce-keeps "loading" s h)

  after_preload-keeps :
      (m : ModelMemoryLifecycle) (name : String) (x : Step SwitchResult (Unit {0}) × S)
      → Inv x.1
      → Inv (after_preload model_probe disk_cache vram_recorder clock progress_callback m name x).2
  unfolding after_preload unload_stage
  after_preload-keeps m name (raised e, s) h = h
  after_preload-keeps m name (returned r, s) h = h
  after_preload-keeps m name (value _, s) h =
      load_stage-keeps name _ (unload_beside-keeps m.current_residency m name s h)

  -- The stages of a switch keep what their collaborators keep.
  pub switch_stages-keeps :
      (cache : DiskCache S) (name : String) (m : ModelMemoryLifecycle) (s : S)
      → CacheKeeps Inv cache
      → Inv s
      → Inv
          (switch_stages model_probe disk_cache vram_recorder clock progress_callback cache name m
            s).2
  unfolding switch_stages
  switch_stages-keeps cache name m s keeps h =
      after_preload-keeps m name _ (preload_stage-keeps cache name s keeps h)
