-- ===== src/Lifecycle/Switch.antt =====
-- lmrs/model_lifecycle.py: `switch_model`, and the set of the models that a switch runs for.
use vvz_lmrs.Prelude.{
  value_error, err, ok, String, Bool, true, false, not, ◌==◌, ◌||◌, Option, none, some, List, [],
  ◌∷◌, filter, Result, ok, err, Exception, if◌then◌else◌,
}
use vvz_lmrs.Prelude.Int.{ℤ}
use vvz_lmrs.Prelude.Dict.{Dict}
use vvz_lmrs.Prelude.Value.{Value}
use vvz_lmrs.Lifecycle.{
  ModelResidency, LifecycleCommandResult, ModelMemoryLifecycle, ProbeResult, CacheStatus,
  PreloadResult, DiskCache, Step, raised, returned, value, ◌then◌, text_or, is_cached,
}
use vvz_lmrs.Lifecycle.Memory.{load_model, Ended}
use vvz_lmrs.Lifecycle.Unload.{unload_model}

-- The keys of the dict that a switch returns; a failure has no facts, a success no failed stage.
pub record RuntimeFacts : Type 0 where
  pub state : String
  pub measured_model_static_vram_bytes : Option ℤ
  pub model_loaded_free_vram_bytes : Option ℤ
  pub metadata : Dict Value

pub record SwitchResult : Type 0 where
  pub status : String
  pub model_name : String
  pub reason_code : Option String
  pub failed_stage : Option String
  pub runtime_facts : Option RuntimeFacts

unfoldable pub switch_failure : String → String → String → SwitchResult
switch_failure name reason_code stage = record {
  status = "failed";
  model_name = name;
  reason_code = some reason_code;
  failed_stage = some stage;
  runtime_facts = none;
}

unfoldable pub switch_success : String → LifecycleCommandResult → SwitchResult
switch_success name r = record {
  status = "loaded_in_memory";
  model_name = name;
  reason_code = r.reason_code;
  failed_stage = none;
  runtime_facts = some (record {
    state = r.state;
    measured_model_static_vram_bytes = r.measured_model_static_vram_bytes;
    model_loaded_free_vram_bytes = r.model_loaded_free_vram_bytes;
    metadata = r.metadata;
  });
}

-- `_SWITCHES_IN_PROGRESS`, as a list
unfoldable pub model_switch_in_progress : String → List String → Bool
model_switch_in_progress name [] = false
model_switch_in_progress name (other ∷ others) =
    other == name || model_switch_in_progress name others

-- `set.add`
unfoldable pub start_switch : String → List String → List String
unfolding model_switch_in_progress
start_switch name names = if model_switch_in_progress name names then names else name ∷ names

-- `set.discard`
unfoldable pub end_switch : String → List String → List String
end_switch name names = filter (λ other. not (other == name)) names

module _ {S : Type 0} (model_probe : Option (String → S → Result ProbeResult × S))
    (disk_cache : Option (DiskCache S))
    (vram_recorder : Option (String → S → Result (Dict Value) × S)) (clock : S → String)
    (progress_callback : Option (String → S → Result (Unit {0}) × S)) where
  unfoldable pub of_call : {X A : Type 0} → Result A × S → Step X A × S
  of_call (err e, s) = (raised e, s)
  of_call (ok a, s) = (value a, s)

  -- `_report`
  unfoldable pub report_of :
      Option (String → S → Result (Unit {0}) × S) → String → S → Step SwitchResult (Unit {0}) × S
  unfolding of_call
  report_of none stage s = (value tt, s)
  report_of (some callback) stage s = of_call (callback stage s)

  unfoldable pub announce : String → S → Step SwitchResult (Unit {0}) × S
  unfolding report_of
  announce stage s = report_of progress_callback stage s

  unfoldable pub preloaded : String → PreloadResult → S → Step SwitchResult (Unit {0}) × S
  preloaded name p s =
      if not p.success
      then (
        returned
            (switch_failure name (text_or p.reason_code "MODEL_CACHE_PRELOAD_FAILED") "preloading"),
        s,
      )
      else (value tt, s)

  unfoldable pub checked : DiskCache S → String → CacheStatus → S → Step SwitchResult (Unit {0}) × S
  unfolding preloaded announce of_call
  checked cache name c s =
      if not (is_cached c.status)
      then announce "preloading" s
      then (λ _ s. of_call (cache.preload name s))
      then preloaded name
      else (value tt, s)

  unfoldable pub preload_stage : DiskCache S → String → S → Step SwitchResult (Unit {0}) × S
  unfolding checked of_call
  preload_stage cache name s = of_call (cache.status name s) then checked cache name

  unfoldable pub unloaded :
      LifecycleCommandResult × ModelMemoryLifecycle
      → String
      → S
      → Step SwitchResult (Unit {0}) × ModelMemoryLifecycle × S
  unloaded (r, m) name s =
      if not r.success
      then (
        returned (switch_failure name (text_or r.reason_code "MODEL_UNLOAD_FAILED") "unloading"),
        m,
        s,
      )
      else (value tt, m, s)

  unfoldable pub announced_unload :
      ModelMemoryLifecycle
      → String
      → String
      → Step SwitchResult (Unit {0}) × S
      → Step SwitchResult (Unit {0}) × ModelMemoryLifecycle × S
  unfolding unloaded
  announced_unload m resident name (raised e, s) = (raised e, m, s)
  announced_unload m resident name (returned r, s) = (returned r, m, s)
  announced_unload m resident name (value _, s) =
      unloaded (unload_model model_probe disk_cache vram_recorder clock resident m) name s

  unfoldable pub unload_beside :
      Option ModelResidency
      → ModelMemoryLifecycle
      → String
      → S
      → Step SwitchResult (Unit {0}) × ModelMemoryLifecycle × S
  unfolding announced_unload
  unload_beside none m name s = (value tt, m, s)
  unload_beside (some res) m name s =
      if not (res.model_name == name)
      then announced_unload m res.model_name name (announce "unloading" s)
      else (value tt, m, s)

  unfoldable pub unload_stage :
      ModelMemoryLifecycle → String → S → Step SwitchResult (Unit {0}) × ModelMemoryLifecycle × S
  unfolding unload_beside
  unload_stage m name s = unload_beside m.current_residency m name s

  -- the answer to an exception, which the stages of a switch do not let through
  unfoldable pub caught : String → Exception → SwitchResult
  caught name e = switch_failure name e.type_name "loading"

  unfoldable pub loaded : String → Ended S → SwitchResult × ModelMemoryLifecycle × S
  unfolding caught
  loaded name (err e, m, s) = (caught name e, m, s)
  loaded name (ok r, m, s) =
      if not r.success
      then (switch_failure name (text_or r.reason_code "MODEL_LOAD_FAILED") "loading", m, s)
      else (switch_success name r, m, s)

  unfoldable pub announced_load :
      ModelMemoryLifecycle
      → String
      → Step SwitchResult (Unit {0}) × S
      → SwitchResult × ModelMemoryLifecycle × S
  unfolding loaded caught
  announced_load m name (raised e, s) = (caught name e, m, s)
  announced_load m name (returned r, s) = (r, m, s)
  announced_load m name (value _, s) =
      loaded name (load_model model_probe disk_cache vram_recorder clock name true m s)

  unfoldable pub load_stage :
      String
      → Step SwitchResult (Unit {0}) × ModelMemoryLifecycle × S
      → SwitchResult × ModelMemoryLifecycle × S
  unfolding announced_load caught
  load_stage name (raised e, m, s) = (caught name e, m, s)
  load_stage name (returned r, m, s) = (r, m, s)
  load_stage name (value _, m, s) = announced_load m name (announce "loading" s)

  unfoldable pub after_preload :
      ModelMemoryLifecycle
      → String
      → Step SwitchResult (Unit {0}) × S
      → SwitchResult × ModelMemoryLifecycle × S
  unfolding load_stage unload_stage caught
  after_preload m name (raised e, s) = (caught name e, m, s)
  after_preload m name (returned r, s) = (r, m, s)
  after_preload m name (value _, s) = load_stage name (unload_stage m name s)

  -- the body of the outer `try`
  unfoldable pub switch_stages :
      DiskCache S → String → ModelMemoryLifecycle → S → SwitchResult × ModelMemoryLifecycle × S
  unfolding after_preload preload_stage
  switch_stages cache name m s = after_preload m name (preload_stage cache name s)

-- The set of the switches that run is a global of the module: every collaborator is called on a
-- world that holds it.
abbrev pub SwitchWorld : Type 0 → Type 0
SwitchWorld S = List String × S

-- `finally`
unfoldable pub discarded :
    {S : Type 0}
    → String
    → SwitchResult × ModelMemoryLifecycle × SwitchWorld S
    → Result SwitchResult × Option ModelMemoryLifecycle × SwitchWorld S
unfolding end_switch
discarded name (r, m, (switches, s)) = (ok r, some m, (end_switch name switches, s))

module _ {S : Type 0}
    (model_probe : Option (String → SwitchWorld S → Result ProbeResult × SwitchWorld S))
    (disk_cache : Option (DiskCache (SwitchWorld S)))
    (vram_recorder : Option (String → SwitchWorld S → Result (Dict Value) × SwitchWorld S))
    (clock : SwitchWorld S → String)
    (progress_callback : Option (String → SwitchWorld S → Result (Unit {0}) × SwitchWorld S)) where
  -- `switch_model` owns neither collaborator and refuses to run without both
  unfoldable pub switch_model :
      Option (DiskCache (SwitchWorld S))
      → String
      → Option ModelMemoryLifecycle
      → SwitchWorld S
      → Result SwitchResult × Option ModelMemoryLifecycle × SwitchWorld S
  unfolding switch_stages start_switch discarded
  switch_model (some cache) name (some m) (switches, s) = discarded name (
      switch_stages model_probe disk_cache vram_recorder clock progress_callback cache name m
        (start_switch name switches, s))
  switch_model _ name m w = (
    err (value_error "switch_model requires the lifecycle and disk cache owned by the caller"),
    m,
    w,
  )
