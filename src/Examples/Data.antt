-- ===== src/Examples/Data.antt =====
-- A request, a card with room for it, a queue and a residency.
use vvz_lmrs.Prelude.{
  ℕ, suc, String, Bool, true, false, Option, none, some, [], ◌∷◌, ◌==◌, Result, ok,
}
use vvz_lmrs.Prelude.Int.{pos}
use vvz_lmrs.Prelude.Dict.{Dict}
use vvz_lmrs.Prelude.Value.{Scalar}
use vvz_lmrs.Estimation.{TokenBreakdown, RequestCapacityEstimate}
use vvz_lmrs.Admission.{CapacitySnapshot}
use vvz_lmrs.Queue.{QueueEntry, RequestQueue}
use vvz_lmrs.Commands.{RuntimeReply, normalized}
use vvz_lmrs.Commands.Handler.{Request}
use vvz_lmrs.Lifecycle.{ModelResidency, ModelMemoryLifecycle, ProbeResult, DiskCache}

abbrev pub breakdown : TokenBreakdown
breakdown = record {
  input_tokens = pos 60;
  tool_tokens = pos 10;
  service_tokens = pos 10;
  reserved_output_tokens = pos 20;
  tokenizer_name = "qwen";
  tokenizer_accuracy = "exact";
  rough_estimate = false;
  metadata = [];
}

-- a request of 100 tokens at 4 bytes each, and 50 bytes of overheads
abbrev pub request_on : CapacitySnapshot → Request
request_on capacity = record {
  request_id = "r1";
  model_name = "qwen";
  token_breakdown = breakdown;
  declared_context_window = pos 128;
  capacity = capacity;
  kv_bytes_per_token = pos 4;
  per_request_overhead_bytes = pos 30;
  runtime_batch_overhead_bytes = pos 20;
  cache_hit_confirmed = false;
  cache_adjusted_dynamic_vram_bytes = none;
}

-- a capacity with `usable` bytes of a pool of `pool`
abbrev pub capacity_of : ℕ → ℕ → CapacitySnapshot
capacity_of usable pool = record {
  usable_dynamic_vram_bytes = pos usable;
  max_dynamic_pool_bytes = pos pool;
  model_loaded = true;
  runtime_ready = true;
  metadata = [];
}

-- its estimate, when `usable` bytes are
abbrev pub estimate_on : ℕ → RequestCapacityEstimate
estimate_on usable = record {
  request_id = "r1";
  model_name = "qwen";
  token_breakdown = breakdown;
  required_tokens = pos 100;
  required_dynamic_vram_bytes = pos 450;
  usable_dynamic_vram_bytes = pos usable;
  declared_context_window = pos 128;
  kv_bytes_per_token = pos 4;
  per_request_overhead_bytes = pos 30;
  runtime_batch_overhead_bytes = pos 20;
  metadata = [];
}

abbrev pub session_metadata : Dict Scalar
session_metadata = ("session_id", Scalar.text "s1") ∷ []

abbrev pub admission_metadata : Dict Scalar
admission_metadata =
    ("admitted_at", Scalar.text "t0")
    ∷ ("expires_at", Scalar.text "t9")
    ∷ ("priority", Scalar.int (pos 2))
    ∷ []

-- an entry of `bytes` bytes
abbrev pub entry_of : String → ℕ → QueueEntry
entry_of request_id bytes = record {
  request_id = request_id;
  session_id = "s1";
  model_name = "qwen";
  required_tokens = pos 100;
  required_dynamic_vram_bytes = pos bytes;
  admitted_at = "t0";
  expires_at = "t9";
  priority = pos 2;
  status = "queued";
  metadata = [];
}

abbrev pub small : QueueEntry
small = entry_of "a" 100

abbrev pub large : QueueEntry
large = entry_of "b" 300

abbrev pub waiting : RequestQueue
waiting = record { entries = small ∷ large ∷ [] }

-- A world that counts the calls of the runtime, and holds the queue of its owner.
pub record World : Type 0 where
  pub calls : ℕ
  pub queue : RequestQueue

abbrev pub start : World
start = record { calls = 0; queue = waiting }

abbrev pub run_once : World → Result (RuntimeReply ℕ) × World
run_once w = (ok (normalized 7), record w { calls = suc w.calls })

abbrev pub keep_queue : RequestQueue → World → Result (Unit {0}) × World
keep_queue q w = (ok tt, record w { queue = q })

-- The predicate of a switch to one model.
abbrev pub switching_to : String → String → World → Bool
switching_to target model_name w = model_name == target

abbrev pub resident : String → ModelResidency
resident model_name = record {
  model_name = model_name;
  runtime_backend = "vllm";
  state = "loaded";
  keep_loaded = true;
  measured_model_static_vram_bytes = none;
  model_loaded_free_vram_bytes = none;
  loaded_at = none;
  metadata = [];
}

abbrev pub lifecycle_of : Option ModelResidency → ModelMemoryLifecycle
lifecycle_of current_residency = record {
  current_residency = current_residency;
  runtime_backend = "vllm";
}

-- A runtime that serves one model, a cache that holds every model, and a clock that stands.
abbrev pub serves : String → String → ℕ → Result ProbeResult × ℕ
serves served model_name s = (
  ok (record {
    is_ok = model_name == served;
    served_models = served ∷ [];
    metadata = none;
    error = none;
  }),
  suc s,
)

abbrev pub full_cache : DiskCache ℕ
full_cache = record {
  status = λ name s. (ok (record { status = some "cached_on_disk"; reason_code = none }), s);
  preload = λ name s. (ok (record { success = true; reason_code = none }), s);
}

abbrev pub noon : ℕ → String
noon s = "12:00"
