-- ===== src/Lifecycle/Residency.antt =====
-- Which model is resident after the commands of `ModelMemoryLifecycle`, whatever its collaborators do.
use vvz_lmrs.Prelude.{
  ◌≡◌, refl, ap, arith, ◌⊎◌, inl, inr, eq_iff, String, Bool, true, false, not, ◌==◌, Option, none,
  some, Result, ok, err, if◌then◌else◌, if_case, is_some,
}
use vvz_lmrs.Prelude.Dict.{Dict}
use vvz_lmrs.Prelude.Value.{Value}
use vvz_lmrs.Lifecycle.{
  ModelResidency, LifecycleCommandResult, ModelMemoryLifecycle, ProbeResult, CacheStatus, DiskCache,
  Step, raised, returned, value, ◌then◌, is_cached,
}
use vvz_lmrs.Lifecycle.Memory.{
  Loaded, Ended, cache_step, status_read, not_cached, probe_step, probe_read, recorder_step,
  facts_read, fetch, settle, load_beside, load_model,
}
use vvz_lmrs.Lifecycle.Unload.{unload_model, unload_of, unload_resident}

-- The named model is the resident one.
abbrev pub Resides : String → ModelMemoryLifecycle → Type 0
Resides name m = (res : ModelResidency) × (m.current_residency ≡ some res) × (res.model_name ≡ name)

abbrev pub is_success : Result LifecycleCommandResult → Bool
is_success (err e) = false
is_success (ok r) = r.success

-- A step returns early only with a failure, and goes on only when `Q` holds.
abbrev FailsUnless : {A : Type 0} → Type 0 → Step LifecycleCommandResult A → Type 0
FailsUnless Q (raised e) = Unit
FailsUnless Q (returned r) = r.success ≡ false
FailsUnless Q (value a) = Q

then-FailsUnless :
    {S A B : Type 0} (P Q : Type 0) (x : Step LifecycleCommandResult A × S)
    (k : A → S → Step LifecycleCommandResult B × S)
    → FailsUnless P x.0
    → ((a : A) (s : S) → P → FailsUnless Q (k a s).0)
    → FailsUnless Q (x then k).0
then-FailsUnless P Q (raised e, s) k h g = tt
then-FailsUnless P Q (returned r, s) k h g = h
then-FailsUnless P Q (value a, s) k h g = g a s h

module _ {S : Type 0} where
  -- Some call of the runtime probe answered that the model is served.
  abbrev pub Proven : Option (String → S → Result ProbeResult × S) → String → Type 0
  Proven none name = Unit
  Proven (some probe) name =
      (s : S) × ((p : ProbeResult) × ((probe name s).0 ≡ ok p) × (p.is_ok ≡ true))

module _ {S : Type 0} (model_probe : Option (String → S → Result ProbeResult × S))
    (disk_cache : Option (DiskCache S))
    (vram_recorder : Option (String → S → Result (Dict Value) × S)) (clock : S → String) where
  status_read_lem :
      (name : String) (metadata : Dict Value) (out : Result CacheStatus × S)
      → FailsUnless Unit
          (status_read model_probe disk_cache vram_recorder clock name metadata out).0
  unfolding status_read not_cached
  status_read_lem name metadata (err e, s) = tt
  status_read_lem name metadata (ok c, s) =
      if_case (λ (x : Step LifecycleCommandResult (Dict Value) × S). FailsUnless Unit x.0)
        (is_cached c.status) (λ _. tt) (λ _. refl)

  cache_step_lem :
      (name : String) (allow_preload : Bool) (o : Option (DiskCache S)) (s : S)
      → FailsUnless Unit
          (cache_step model_probe disk_cache vram_recorder clock name allow_preload o s).0
  unfolding cache_step
  cache_step_lem name allow none s = tt
  cache_step_lem name true (some cache) s = tt
  cache_step_lem name false (some cache) s = status_read_lem name _ (cache.status name s)

  probe_read_lem :
      (name : String) (Q : Type 0) (metadata : Dict Value) (out : Result ProbeResult × S)
      → ((p : ProbeResult) → out.0 ≡ ok p → p.is_ok ≡ true → Q)
      → FailsUnless Q (probe_read model_probe disk_cache vram_recorder clock name metadata out).0
  unfolding probe_read
  probe_read_lem name Q metadata (err e, s) q = tt
  probe_read_lem name Q metadata (ok p, s) q =
      if_case (λ (x : Step LifecycleCommandResult (Dict Value) × S). FailsUnless Q x.0)
        (not p.is_ok) (λ _. refl) (λ h. q p refl (ground arith))

  probe_step_lem :
      (name : String) (o : Option (String → S → Result ProbeResult × S)) (metadata : Dict Value)
      (s : S)
      → FailsUnless
          (Proven o name)
          (probe_step model_probe disk_cache vram_recorder clock name o metadata s).0
  unfolding probe_step
  probe_step_lem name none metadata s = tt
  probe_step_lem name (some probe) metadata s =
      probe_read_lem name _ metadata (probe name s) (λ p read served. (s, (p, read, served)))

  facts_read_lem :
      (Q : Type 0) (metadata : Dict Value) (out : Result (Dict Value) × S)
      → Q
      → FailsUnless Q (facts_read model_probe disk_cache vram_recorder clock metadata out).0
  unfolding facts_read
  facts_read_lem Q metadata (err e, s) q = tt
  facts_read_lem Q metadata (ok facts, s) q = q

  recorder_step_lem :
      (name : String) (Q : Type 0) (o : Option (String → S → Result (Dict Value) × S))
      (metadata : Dict Value) (s : S)
      → Q
      → FailsUnless Q (recorder_step model_probe disk_cache vram_recorder clock name o metadata s).0
  unfolding recorder_step
  recorder_step_lem name Q none metadata s q = q
  recorder_step_lem name Q (some recorder) metadata s q =
      facts_read_lem Q metadata (recorder name s) q

  fetch_lem :
      (name : String) (allow_preload : Bool) (s : S)
      → FailsUnless
          (Proven model_probe name)
          (fetch model_probe disk_cache vram_recorder clock name allow_preload s).0
  unfolding fetch
  fetch_lem name allow s =
      then-FailsUnless (Proven model_probe name) (Proven model_probe name) _ _
        (then-FailsUnless Unit (Proven model_probe name) _ _
          (cache_step_lem name allow disk_cache s)
          (λ metadata s _. probe_step_lem name model_probe metadata s))
        (λ metadata s q.
          recorder_step_lem name (Proven model_probe name) vram_recorder metadata s q)

  -- How a load ends: with the model resident, and then it was so before or is proven; or with the
  -- lifecycle as it was.
  abbrev pub LoadEnds : String → ModelMemoryLifecycle → Ended S → Type 0
  LoadEnds name m out =
      ((is_success out.0 ≡ true) × Resides name out.1 × (Resides name m ⊎ Proven model_probe name))
      ⊎ ((is_success out.0 ≡ false) × (out.1 ≡ m))

  settle_ends :
      (name : String) (m : ModelMemoryLifecycle) (x : Step LifecycleCommandResult Loaded × S)
      → FailsUnless (Proven model_probe name) x.0
      → LoadEnds name m (settle model_probe disk_cache vram_recorder clock name m x)
  unfolding settle
  settle_ends name m (raised e, s) h = inr (refl, refl)
  settle_ends name m (returned r, s) h = inr (h, refl)
  settle_ends name m (value l, s) h = inl (refl, (_, refl, refl), inr h)

  load_beside_ends :
      (name : String) (allow_preload : Bool) (m : ModelMemoryLifecycle) (s : S)
      (o : Option ModelResidency)
      → m.current_residency ≡ o
      → LoadEnds name m
          (load_beside model_probe disk_cache vram_recorder clock o name allow_preload m s)
  unfolding load_beside
  load_beside_ends name allow m s none h = settle_ends name m _ (fetch_lem name allow s)
  load_beside_ends name allow m s (some res) h =
      if_case (LoadEnds name m) (res.model_name == name)
        (λ e.
          let here : Resides name m = (res, h, (eq_iff res.model_name name).0 e) in
          inl (refl, here, inl here))
        (λ _.
          if_case (LoadEnds name m) (not allow) (λ _. inr (refl, refl))
            (λ _. settle_ends name m _ (fetch_lem name allow s)))

  -- A load that reports success leaves its model resident, which it was before or which the runtime
  -- probe, where there is one, said it serves; a load that fails or raises leaves the lifecycle as it
  -- was.
  pub load_ends :
      (name : String) (allow_preload : Bool) (m : ModelMemoryLifecycle) (s : S)
      → LoadEnds name m
          (load_model model_probe disk_cache vram_recorder clock name allow_preload m s)
  unfolding load_model
  load_ends name allow m s = load_beside_ends name allow m s m.current_residency refl

  -- How an unload ends: with nothing resident, when there is no runtime probe and the model was the
  -- resident one; or with the lifecycle as it was.
  abbrev pub UnloadEnds :
      String → ModelMemoryLifecycle → LifecycleCommandResult × ModelMemoryLifecycle → Type 0
  UnloadEnds name m out =
      ((out.0.success ≡ true)
        × Resides name m
        × (is_some model_probe ≡ false)
        × (out.1.current_residency ≡ none))
      ⊎ ((out.0.success ≡ false) × (out.1 ≡ m))

  unload_resident_ends :
      (o : Option (String → S → Result ProbeResult × S)) (res : ModelResidency) (name : String)
      (m : ModelMemoryLifecycle)
      → model_probe ≡ o
      → Resides name m
      → UnloadEnds name m (unload_resident model_probe disk_cache vram_recorder clock o res name m)
  unfolding unload_resident
  unload_resident_ends none res name m h here = inl (refl, here, ap is_some h, refl)
  unload_resident_ends (some p) res name m h here = inr (refl, refl)

  unload_of_ends :
      (o : Option ModelResidency) (name : String) (m : ModelMemoryLifecycle)
      → m.current_residency ≡ o
      → UnloadEnds name m (unload_of model_probe disk_cache vram_recorder clock o name m)
  unfolding unload_of
  unload_of_ends none name m h = inr (refl, refl)
  unload_of_ends (some res) name m h =
      if_case (UnloadEnds name m) (not (res.model_name == name)) (λ _. inr (refl, refl))
        (λ e.
          unload_resident_ends model_probe res name m refl
            (res, h, (eq_iff res.model_name name).0 (ground arith)))

  -- An unload that reports success was asked of the resident model of a lifecycle without a runtime
  -- probe, and leaves nothing resident; one that fails leaves the lifecycle as it was.
  pub unload_ends :
      (name : String) (m : ModelMemoryLifecycle)
      → UnloadEnds name m (unload_model model_probe disk_cache vram_recorder clock name m)
  unfolding unload_model
  unload_ends name m = unload_of_ends m.current_residency name m refl
