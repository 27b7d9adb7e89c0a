-- ===== src/Lifecycle/Kept.antt =====
-- lmrs/model_lifecycle.py: what every collaborator keeps of the world, a load and a switch keep.
use vvz_lmrs.Prelude.{String, Bool, not, ◌==◌, Option, none, some, Result, ok, err, if_case}
use vvz_lmrs.Prelude.Dict.{Dict}
use vvz_lmrs.Prelude.Value.{Value}
use vvz_lmrs.Lifecycle.{
  ModelResidency, LifecycleCommandResult, ModelMemoryLifecycle, ProbeResult, CacheStatus, DiskCache,
  Step, raised, returned, value, ◌then◌, is_cached,
}
use vvz_lmrs.Lifecycle.Memory.{
  Loaded, Ended, status_read, cache_step, probe_read, probe_step, facts_read, recorder_step, fetch,
  settle, load_beside, load_model,
}

module _ {S : Type 0} (Inv : S → Type 0) where
  -- A call, where there is one to make, keeps the invariant.
  abbrev pub CallKeeps : {A : Type 0} → Option (String → S → Result A × S) → Type 0
  CallKeeps none = Unit
  CallKeeps (some call) = (name : String) (s : S) → Inv s → Inv (call name s).1

  abbrev pub CacheKeeps : DiskCache S → Type 0
  CacheKeeps cache = CallKeeps (some cache.status) × CallKeeps (some cache.preload)

  abbrev pub DiskKeeps : Option (DiskCache S) → Type 0
  DiskKeeps none = Unit
  DiskKeeps (some cache) = CacheKeeps cache

  pub then-keeps :
      {X A B : Type 0} (x : Step X A × S) (k : A → S → Step X B × S)
      → Inv x.1
      → ((a : A) (s : S) → Inv s → Inv (k a s).1)
      → Inv (x then k).1
  then-keeps (raised e, s) k h g = h
  then-keeps (returned r, s) k h g = h
  then-keeps (value a, s) k h g = g a s h

  module _ (model_probe : Option (String → S → Result ProbeResult × S))
      (disk_cache : Option (DiskCache S))
      (vram_recorder : Option (String → S → Result (Dict Value) × S)) (clock : S → String)
      (probe_keeps : CallKeeps model_probe) (disk_keeps : DiskKeeps disk_cache)
      (recorder_keeps : CallKeeps vram_recorder) where
    status_read-keeps :
        (name : String) (metadata : Dict Value) (out : Result CacheStatus × S)
        → Inv out.1
        → Inv (status_read model_probe disk_cache vram_recorder clock name metadata out).1
    unfolding status_read
    status_read-keeps name metadata (err e, s) h = h
    status_read-keeps name metadata (ok c, s) h =
        if_case (λ (x : Step LifecycleCommandResult (Dict Value) × S). Inv x.1) (is_cached c.status)
          (λ _. h) (λ _. h)

    cache_step-keeps :
        (name : String) (allow : Bool) (o : Option (DiskCache S)) (s : S)
        → DiskKeeps o
        → Inv s
        → Inv (cache_step model_probe disk_cache vram_recorder clock name allow o s).1
    unfolding cache_step
    cache_step-keeps name allow none s keeps h = h
    cache_step-keeps name allow (some cache) s keeps h =
        if_case (λ (x : Step LifecycleCommandResult (Dict Value) × S). Inv x.1) allow (λ _. h)
          (λ _. status_read-keeps name _ (cache.status name s) (keeps.0 name s h))

    probe_read-keeps :
        (name : String) (metadata : Dict Value) (out : Result ProbeResult × S)
        → Inv out.1
        → Inv (probe_read model_probe disk_cache vram_recorder clock name metadata out).1
    unfolding probe_read
    probe_read-keeps name metadata (err e, s) h = h
    probe_read-keeps name metadata (ok p, s) h =
        if_case (λ (x : Step LifecycleCommandResult (Dict Value) × S). Inv x.1) (not p.is_ok)
          (λ _. h) (λ _. h)

    probe_step-keeps :
        (name : String) (o : Option (String → S → Result ProbeResult × S)) (metadata : Dict Value)
        (s : S)
        → CallKeeps o
        → Inv s
        → Inv (probe_step model_probe disk_cache vram_recorder clock name o metadata s).1
    unfolding probe_step
    probe_step-keeps name none metadata s keeps h = h
    probe_step-keeps name (some probe) metadata s keeps h =
        probe_read-keeps name metadata (probe name s) (keeps name s h)

    facts_read-keeps :
        (metadata : Dict Value) (out : Result (Dict Value) × S)
        → Inv out.1
        → Inv (facts_read model_probe disk_cache vram_recorder clock metadata out).1
    unfolding facts_read
    facts_read-keeps metadata (err e, s) h = h
    facts_read-keeps metadata (ok facts, s) h = h

    recorder_step-keeps :
        (name : String) (o : Option (String → S → Result (Dict Value) × S)) (metadata : Dict Value)
        (s : S)
        → CallKeeps o
        → Inv s
        → Inv (recorder_step model_probe disk_cache vram_recorder clock name o metadata s).1
    unfolding recorder_step
    recorder_step-keeps name none metadata s keeps h = h
    recorder_step-keeps name (some recorder) metadata s keeps h =
        facts_read-keeps metadata (recorder name s) (keeps name s h)

    fetch-keeps :
        (name : String) (allow : Bool) (s : S)
        → Inv s
        → Inv (fetch model_probe disk_cache vram_recorder clock name allow s).1
    unfolding fetch
    fetch-keeps name allow s h =
        let probed = probe_step model_probe disk_cache vram_recorder clock name model_probe in
        let read = cache_step model_probe disk_cache vram_recorder clock name allow disk_cache s in
        then-keeps (read then probed)
          (recorder_step model_probe disk_cache vram_recorder clock name vram_recorder)
          (then-keeps read probed (cache_step-keeps name allow disk_cache s disk_keeps h)
            (λ d t k. probe_step-keeps name model_probe d t probe_keeps k))
          (λ d t k. recorder_step-keeps name vram_recorder d t recorder_keeps k)

    settle-keeps :
        (name : String) (m : ModelMemoryLifecycle) (x : Step LifecycleCommandResult Loaded × S)
        → Inv x.1
        → Inv (settle model_probe disk_cache vram_recorder clock name m x).2
    unfolding settle
    settle-keeps name m (raised e, s) h = h
    settle-keeps name m (returned r, s) h = h
    settle-keeps name m (value l, s) h = h

    load_beside-keeps :
        (o : Option ModelResidency) (name : String) (allow : Bool) (m : ModelMemoryLifecycle)
        (s : S)
        → Inv s
        → Inv (load_beside model_probe disk_cache vram_recorder clock o name allow m s).2
    unfolding load_beside
    load_beside-keeps none name allow m s h = settle-keeps name m _ (fetch-keeps name allow s h)
    load_beside-keeps (some res) name allow m s h =
        if_case (λ (x : Ended S). Inv x.2) (res.model_name == name) (λ _. h)
          (λ _.
            if_case (λ (x : Ended S). Inv x.2) (not allow) (λ _. h)
              (λ _. settle-keeps name m _ (fetch-keeps name allow s h)))

    -- A load keeps what its collaborators keep.
    pub load_model-keeps :
        (name : String) (allow : Bool) (m : ModelMemoryLifecycle) (s : S)
        → Inv s
        → Inv (load_model model_probe disk_cache vram_recorder clock name allow m s).2
    unfolding load_model
    load_model-keeps name allow m s h = load_beside-keeps m.current_residency name allow m s h
