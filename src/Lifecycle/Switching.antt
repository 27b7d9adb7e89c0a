-- ===== src/Lifecycle/Switching.antt =====
-- How a model switch ends, whatever the cache, the runtime, the recorder and the callback do.
use vvz_lmrs.Prelude.{
  ◌≡◌, refl, sym, subst, arith, ◌⊎◌, inl, inr, String, Bool, true, false, not, ◌==◌, Option, none,
  some, Result, ok, err, if◌then◌else◌, if_case,
}
use vvz_lmrs.Prelude.Dict.{Dict}
use vvz_lmrs.Prelude.Value.{Value}
use vvz_lmrs.Lifecycle.{
  ModelResidency, LifecycleCommandResult, ModelMemoryLifecycle, ProbeResult, CacheStatus,
  PreloadResult, DiskCache, Step, raised, returned, value, ◌then◌, is_cached,
}
use vvz_lmrs.Lifecycle.Memory.{Ended}
use vvz_lmrs.Lifecycle.Unload.{unload_model}
use vvz_lmrs.Lifecycle.Residency.{Resides, is_success, LoadEnds, load_ends, UnloadEnds, unload_ends}
use vvz_lmrs.Lifecycle.Switch.{
  SwitchResult, switch_failure, switch_success, of_call, report_of, announce, preloaded, checked,
  preload_stage, unloaded, announced_unload, unload_beside, unload_stage, caught, loaded,
  announced_load, load_stage, after_preload, switch_stages,
}

-- An early return of a stage is a failure.
abbrev pub StopsFailed : {A : Type 0} → Step SwitchResult A → Type 0
StopsFailed (raised e) = Unit
StopsFailed (returned r) = r.status ≡ "failed"
StopsFailed (value a) = Unit

then-StopsFailed :
    {S A B : Type 0} (x : Step SwitchResult A × S) (k : A → S → Step SwitchResult B × S)
    → StopsFailed x.0
    → ((a : A) (s : S) → StopsFailed (k a s).0)
    → StopsFailed (x then k).0
then-StopsFailed (raised e, s) k h g = tt
then-StopsFailed (returned r, s) k h g = h
then-StopsFailed (value a, s) k h g = g a s

-- The lifecycle is as it was, or nothing is resident.
abbrev pub Cleared : ModelMemoryLifecycle → ModelMemoryLifecycle → Type 0
Cleared m m' = (m' ≡ m) ⊎ (m'.current_residency ≡ none)

-- How a switch ends: with the target resident; or failed, with the lifecycle as it was or cleared.
abbrev pub SwitchEnds :
    {S : Type 0} → String → ModelMemoryLifecycle → SwitchResult × ModelMemoryLifecycle × S → Type 0
SwitchEnds name m out =
    ((out.0.status ≡ "loaded_in_memory") × Resides name out.1)
    ⊎ ((out.0.status ≡ "failed") × Cleared m out.1)

-- A stage that stops leaves the lifecycle as it was; one that goes on may have cleared it.
abbrev StageEnds :
    {S A : Type 0} → ModelMemoryLifecycle → Step SwitchResult A × ModelMemoryLifecycle × S → Type 0
StageEnds m (raised e, m', s) = m' ≡ m
StageEnds m (returned r, m', s) = (r.status ≡ "failed") × (m' ≡ m)
StageEnds m (value a, m', s) = Cleared m m'

module _ {S : Type 0} (model_probe : Option (String → S → Result ProbeResult × S))
    (disk_cache : Option (DiskCache S))
    (vram_recorder : Option (String → S → Result (Dict Value) × S)) (clock : S → String)
    (progress_callback : Option (String → S → Result (Unit {0}) × S)) where
  of_call_lem :
      {A : Type 0} (out : Result A × S)
      → StopsFailed
          (of_call model_probe disk_cache vram_recorder clock progress_callback {X = SwitchResult}
            out).0
  unfolding of_call
  of_call_lem (err e, s) = tt
  of_call_lem (ok a, s) = tt

  report_of_lem :
      (o : Option (String → S → Result (Unit {0}) × S)) (stage : String) (s : S)
      → StopsFailed
          (report_of model_probe disk_cache vram_recorder clock progress_callback o stage s).0
  unfolding report_of
  report_of_lem none stage s = tt
  report_of_lem (some callback) stage s = of_call_lem (callback stage s)

  pub announce_lem :
      (stage : String) (s : S)
      → StopsFailed
          (announce model_probe disk_cache vram_recorder clock progress_callback stage s).0
  unfolding announce
  announce_lem stage s = report_of_lem progress_callback stage s

  preloaded_lem :
      (name : String) (p : PreloadResult) (s : S)
      → StopsFailed
          (preloaded model_probe disk_cache vram_recorder clock progress_callback name p s).0
  unfolding preloaded switch_failure
  preloaded_lem name p s =
      if_case (λ (x : Step SwitchResult (Unit {0}) × S). StopsFailed x.0) (not p.success)
        (λ _. refl) (λ _. tt)

  checked_lem :
      (cache : DiskCache S) (name : String) (c : CacheStatus) (s : S)
      → StopsFailed
          (checked model_probe disk_cache vram_recorder clock progress_callback cache name c s).0
  unfolding checked
  checked_lem cache name c s =
      if_case (λ (x : Step SwitchResult (Unit {0}) × S). StopsFailed x.0) (not (is_cached c.status))
        (λ _.
          then-StopsFailed _ _
            (then-StopsFailed _ _ (announce_lem "preloading" s)
              (λ _ s. of_call_lem (cache.preload name s)))
            (λ p s. preloaded_lem name p s))
        (λ _. tt)

  pub preload_stage_lem :
      (cache : DiskCache S) (name : String) (s : S)
      → StopsFailed
          (preload_stage model_probe disk_cache vram_recorder clock progress_callback cache name
            s).0
  unfolding preload_stage
  preload_stage_lem cache name s =
      then-StopsFailed _ _ (of_call_lem (cache.status name s)) (λ c s. checked_lem cache name c s)

  kept_of_unload :
      (name : String) (m : ModelMemoryLifecycle)
      (out : LifecycleCommandResult × ModelMemoryLifecycle)
      → UnloadEnds model_probe disk_cache vram_recorder clock name m out
      → out.0.success ≡ false
      → out.1 ≡ m
  kept_of_unload name m out (inl h) e = cc (h.0, e)
  kept_of_unload name m out (inr h) e = h.1

  Cleared-of_unload :
      (name : String) (m : ModelMemoryLifecycle)
      (out : LifecycleCommandResult × ModelMemoryLifecycle)
      → UnloadEnds model_probe disk_cache vram_recorder clock name m out
      → Cleared m out.1
  Cleared-of_unload name m out (inl h) = inr h.3
  Cleared-of_unload name m out (inr h) = inl h.1

  kept_of_load :
      (name : String) (m : ModelMemoryLifecycle) (out : Ended S)
      → LoadEnds model_probe disk_cache vram_recorder clock name m out
      → is_success out.0 ≡ false
      → out.1 ≡ m
  kept_of_load name m out (inl h) e = cc (h.0, e)
  kept_of_load name m out (inr h) e = h.1

  Resides-of_load :
      (name : String) (m : ModelMemoryLifecycle) (out : Ended S)
      → LoadEnds model_probe disk_cache vram_recorder clock name m out
      → is_success out.0 ≡ true
      → Resides name out.1
  Resides-of_load name m out (inl h) e = h.1
  Resides-of_load name m out (inr h) e = cc (h.0, e)

  not-eq-true : (b : Bool) → not b ≡ true → b ≡ false
  not-eq-true b h = ground arith

  not-eq-false : (b : Bool) → not b ≡ false → b ≡ true
  not-eq-false b h = ground arith

  unloaded_ends :
      (resident name : String) (m : ModelMemoryLifecycle)
      (out : LifecycleCommandResult × ModelMemoryLifecycle) (s : S)
      → UnloadEnds model_probe disk_cache vram_recorder clock resident m out
      → StageEnds m
          (unloaded model_probe disk_cache vram_recorder clock progress_callback out name s)
  unfolding unloaded switch_failure
  unloaded_ends resident name m (r, m') s h =
      if_case (StageEnds m) (not r.success)
        (λ e. (refl, kept_of_unload resident m (r, m') h (not-eq-true r.success e)))
        (λ _. Cleared-of_unload resident m (r, m') h)

  announced_unload_ends :
      (m : ModelMemoryLifecycle) (resident name : String) (x : Step SwitchResult (Unit {0}) × S)
      → StopsFailed x.0
      → StageEnds m (
          announced_unload model_probe disk_cache vram_recorder clock progress_callback m resident
            name x)
  unfolding announced_unload
  announced_unload_ends m resident name (raised e, s) h = refl
  announced_unload_ends m resident name (returned r, s) h = (h, refl)
  announced_unload_ends m resident name (value _, s) h =
      unloaded_ends resident name m
        (unload_model model_probe disk_cache vram_recorder clock resident m) s
        (unload_ends model_probe disk_cache vram_recorder clock resident m)

  unload_beside_ends :
      (o : Option ModelResidency) (m : ModelMemoryLifecycle) (name : String) (s : S)
      → StageEnds m
          (unload_beside model_probe disk_cache vram_recorder clock progress_callback o m name s)
  unfolding unload_beside
  unload_beside_ends none m name s = inl refl
  unload_beside_ends (some res) m name s =
      if_case (StageEnds m) (not (res.model_name == name))
        (λ _. announced_unload_ends m res.model_name name _ (announce_lem "unloading" s))
        (λ _. inl refl)

  loaded_ends :
      (name : String) (m m1 : ModelMemoryLifecycle) (out : Ended S)
      → Cleared m m1
      → LoadEnds model_probe disk_cache vram_recorder clock name m1 out
      → SwitchEnds name m
          (loaded model_probe disk_cache vram_recorder clock progress_callback name out)
  unfolding loaded switch_failure switch_success caught
  loaded_ends name m m1 (err e, m', s) c h =
      inr (refl, subst (Cleared m) (sym (kept_of_load name m1 (err e, m', s) h refl)) c)
  loaded_ends name m m1 (ok r, m', s) c h =
      if_case (SwitchEnds name m) (not r.success)
        (λ e. inr (
          refl,
          subst (Cleared m) (sym (kept_of_load name m1 (ok r, m', s) h (not-eq-true r.success e)))
              c,
        ))
        (λ e. inl (refl, Resides-of_load name m1 (ok r, m', s) h (not-eq-false r.success e)))

  announced_load_ends :
      (m m1 : ModelMemoryLifecycle) (name : String) (x : Step SwitchResult (Unit {0}) × S)
      → Cleared m m1
      → StopsFailed x.0
      → SwitchEnds name m
          (announced_load model_probe disk_cache vram_recorder clock progress_callback m1 name x)
  unfolding announced_load switch_failure caught
  announced_load_ends m m1 name (raised e, s) c h = inr (refl, c)
  announced_load_ends m m1 name (returned r, s) c h = inr (h, c)
  announced_load_ends m m1 name (value _, s) c h =
      loaded_ends name m m1 _ c
        (load_ends model_probe disk_cache vram_recorder clock name true m1 s)

  load_stage_ends :
      (m : ModelMemoryLifecycle) (name : String)
      (x : Step SwitchResult (Unit {0}) × ModelMemoryLifecycle × S)
      → StageEnds m x
      → SwitchEnds name m
          (load_stage model_probe disk_cache vram_recorder clock progress_callback name x)
  unfolding load_stage switch_failure caught
  load_stage_ends m name (raised e, m1, s) h = inr (refl, inl h)
  load_stage_ends m name (returned r, m1, s) h = inr (h.0, inl h.1)
  load_stage_ends m name (value _, m1, s) h =
      announced_load_ends m m1 name _ h (announce_lem "loading" s)

  after_preload_ends :
      (m : ModelMemoryLifecycle) (name : String) (x : Step SwitchResult (Unit {0}) × S)
      → StopsFailed x.0
      → SwitchEnds name m
          (after_preload model_probe disk_cache vram_recorder clock progress_callback m name x)
  unfolding after_preload unload_stage switch_failure caught
  after_preload_ends m name (raised e, s) h = inr (refl, inl refl)
  after_preload_ends m name (returned r, s) h = inr (h, inl refl)
  after_preload_ends m name (value _, s) h =
      load_stage_ends m name _ (unload_beside_ends m.current_residency m name s)

  -- A switch always returns, never with an exception. It reports the target loaded only with the
  -- target resident; otherwise it reports a failure, and the lifecycle is as it was before or has
  -- nothing resident.
  pub switch_ends :
      (cache : DiskCache S) (name : String) (m : ModelMemoryLifecycle) (s : S)
      → SwitchEnds name m (
          switch_stages model_probe disk_cache vram_recorder clock progress_callback cache name m s)
  unfolding switch_stages
  switch_ends cache name m s = after_preload_ends m name _ (preload_stage_lem cache name s)
