-- ===== src/Lifecycle/Memory.antt =====
-- lmrs/model_lifecycle.py: `ModelMemoryLifecycle.load_model`. Its collaborators read and change
-- the world `S`; a method ends with a result or an exception, the lifecycle and the world.
use vvz_lmrs.Prelude.{
  String, Bool, true, false, not, ◌==◌, Option, none, some, [], ◌∷◌, Result, ok, err, if◌then◌else◌,
}
use vvz_lmrs.Prelude.Int.{ℤ}
use vvz_lmrs.Prelude.Dict.{Dict, lookup, insert, update}
use vvz_lmrs.Prelude.Value.{Value}
use vvz_lmrs.Vram.Store.{as_int}
use vvz_lmrs.Lifecycle.{
  ModelResidency, LifecycleCommandResult, ModelMemoryLifecycle, ProbeResult, CacheStatus, DiskCache,
  Step, raised, returned, value, ◌then◌, text_or, text_or_null, texts, fields, is_cached,
}

-- A result without measurements.
abbrev pub bare_result :
    String → String → String → Bool → Option String → Dict Value → LifecycleCommandResult
bare_result command model_name state success reason_code metadata = record {
  command = command;
  model_name = model_name;
  state = state;
  success = success;
  reason_code = reason_code;
  measured_model_static_vram_bytes = none;
  model_loaded_free_vram_bytes = none;
  metadata = metadata;
}

-- A result with the measurements of a residency.
abbrev pub measured_result :
    String
    → String
    → String
    → Bool
    → Option String
    → ModelResidency
    → Dict Value
    → LifecycleCommandResult
measured_result command model_name state success reason_code res metadata = record {
  command = command;
  model_name = model_name;
  state = state;
  success = success;
  reason_code = reason_code;
  measured_model_static_vram_bytes = res.measured_model_static_vram_bytes;
  model_loaded_free_vram_bytes = res.model_loaded_free_vram_bytes;
  metadata = metadata;
}

-- What a load that is proven has gathered.
pub record Loaded : Type 0 where
  pub static_vram : Option ℤ
  pub free_vram : Option ℤ
  pub metadata : Dict Value

abbrev pub Ended : Type 0 → Type 0
Ended S = Result LifecycleCommandResult × ModelMemoryLifecycle × S

module _ {S : Type 0} (model_probe : Option (String → S → Result ProbeResult × S))
    (disk_cache : Option (DiskCache S))
    (vram_recorder : Option (String → S → Result (Dict Value) × S)) (clock : S → String) where
  unfoldable pub not_cached : String → CacheStatus → LifecycleCommandResult
  not_cached name c = bare_result "load_model" name "not_loaded" false (some "MODEL_NOT_CACHED") (
      ("cache_status", text_or_null c.status)
      ∷ ("cache_reason_code", text_or_null c.reason_code)
      ∷ ("hint", Value.text "call this command with allow_preload to fetch the model first")
      ∷ [])

  unfoldable pub status_read :
      String → Dict Value → Result CacheStatus × S → Step LifecycleCommandResult (Dict Value) × S
  unfolding not_cached
  status_read name metadata (err e, s) = (raised e, s)
  status_read name metadata (ok c, s) =
      if is_cached c.status
      then (value (insert "cache_status" (text_or_null c.status) metadata), s)
      else (returned (not_cached name c), s)

  -- the disk cache before a load, unless preload is allowed
  unfoldable pub cache_step :
      String → Bool → Option (DiskCache S) → S → Step LifecycleCommandResult (Dict Value) × S
  unfolding status_read
  cache_step name allow_preload none s =
      (value (("allow_preload", Value.bool allow_preload) ∷ []), s)
  cache_step name allow_preload (some cache) s =
      if allow_preload
      then (value (("allow_preload", Value.bool allow_preload) ∷ []), s)
      else status_read name (("allow_preload", Value.bool allow_preload) ∷ []) (cache.status name s)

  abbrev pub with_probe_metadata : Option (Dict Value) → Dict Value → Dict Value
  with_probe_metadata none metadata = metadata
  with_probe_metadata (some extra) metadata = update metadata extra

  unfoldable pub probed_metadata : ProbeResult → Dict Value → Dict Value
  probed_metadata p metadata = with_probe_metadata p.metadata (
      update metadata (
        ("runtime_probe", Value.text "vllm_openai_models")
        ∷ ("served_models", Value.list (texts p.served_models))
        ∷ []))

  unfoldable pub probe_read :
      String → Dict Value → Result ProbeResult × S → Step LifecycleCommandResult (Dict Value) × S
  unfolding probed_metadata
  probe_read name metadata (err e, s) = (raised e, s)
  probe_read name metadata (ok p, s) =
      if not p.is_ok
      then (
        returned (
            bare_result "load_model" name "failed" false (some "MODEL_NOT_SERVED_BY_VLLM") (
              insert "error" (Value.text (text_or p.error "model is not served by vLLM"))
                (probed_metadata p metadata))),
        s,
      )
      else (value (probed_metadata p metadata), s)

  -- the runtime's word that it serves the model
  unfoldable pub probe_step :
      String
      → Option (String → S → Result ProbeResult × S)
      → Dict Value
      → S
      → Step LifecycleCommandResult (Dict Value) × S
  unfolding probe_read
  probe_step name none metadata s = (value metadata, s)
  probe_step name (some probe) metadata s = probe_read name metadata (probe name s)

  unfoldable pub facts_read :
      Dict Value → Result (Dict Value) × S → Step LifecycleCommandResult Loaded × S
  facts_read metadata (err e, s) = (raised e, s)
  facts_read metadata (ok facts, s) = (
    value (record {
      static_vram = as_int (lookup "measured_model_static_vram_bytes" facts);
      free_vram = as_int (lookup "model_loaded_free_vram_bytes" facts);
      metadata = insert "vram_facts" (Value.dict (fields facts)) metadata;
    }),
    s,
  )

  -- the measurement of a load that is proven
  unfoldable pub recorder_step :
      String
      → Option (String → S → Result (Dict Value) × S)
      → Dict Value
      → S
      → Step LifecycleCommandResult Loaded × S
  unfolding facts_read
  recorder_step name none metadata s =
      (value (record { static_vram = none; free_vram = none; metadata = metadata }), s)
  recorder_step name (some recorder) metadata s = facts_read metadata (recorder name s)

  -- the steps of a load up to the change of the residency
  unfoldable pub fetch : String → Bool → S → Step LifecycleCommandResult Loaded × S
  unfolding cache_step probe_step recorder_step
  fetch name allow_preload s =
      cache_step name allow_preload disk_cache s
      then probe_step name model_probe
      then recorder_step name vram_recorder

  unfoldable pub settle :
      String → ModelMemoryLifecycle → Step LifecycleCommandResult Loaded × S → Ended S
  settle name m (raised e, s) = (err e, m, s)
  settle name m (returned r, s) = (ok r, m, s)
  settle name m (value l, s) = (
    ok (record {
      command = "load_model";
      model_name = name;
      state = "loaded";
      success = true;
      reason_code = none;
      measured_model_static_vram_bytes = l.static_vram;
      model_loaded_free_vram_bytes = l.free_vram;
      metadata = l.metadata;
    }),
    record m {
      current_residency = some (record {
        model_name = name;
        runtime_backend = m.runtime_backend;
        state = "loaded";
        keep_loaded = true;
        measured_model_static_vram_bytes = l.static_vram;
        model_loaded_free_vram_bytes = l.free_vram;
        loaded_at = some (clock s);
        metadata = l.metadata;
      });
    },
    s,
  )

  unfoldable pub load_beside :
      Option ModelResidency → String → Bool → ModelMemoryLifecycle → S → Ended S
  unfolding fetch settle
  load_beside none name allow_preload m s = settle name m (fetch name allow_preload s)
  load_beside (some res) name allow_preload m s =
      if res.model_name == name
      then (
        ok (
            measured_result "load_model" name res.state true (some "MODEL_ALREADY_LOADED") res
              res.metadata),
        m,
        s,
      )
      else if not allow_preload
      then (
        ok (
            bare_result "load_model" name res.state false (some "MODEL_ALREADY_LOADED")
              (("resident_model", Value.text res.model_name) ∷ [])),
        m,
        s,
      )
      else settle name m (fetch name allow_preload s)

  unfoldable pub load_model : String → Bool → ModelMemoryLifecycle → S → Ended S
  unfolding load_beside
  load_model name allow_preload m s = load_beside m.current_residency name allow_preload m s
