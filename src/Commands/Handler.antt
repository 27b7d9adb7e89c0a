-- ===== src/Commands/Handler.antt =====
-- lmrs/commands.py: `CanonicalChatHandler`, its collaborators as parameters that read and change the
-- world `S`, and `runtime_execute` the call of the runtime client with its arguments.
use vvz_lmrs.Prelude.{
  String, Bool, true, false, ◌==◌, Option, none, some, [], ◌∷◌, Result, ok, err, ◌>>=◌,
  if◌then◌else◌,
}
use vvz_lmrs.Prelude.Int.{ℤ}
use vvz_lmrs.Prelude.Dict.{Dict}
use vvz_lmrs.Prelude.Value.{Value, Scalar}
use vvz_lmrs.Estimation.{
  TokenBreakdown, RequestCapacityEstimate, EstimateInput, estimate_request_capacity,
}
use vvz_lmrs.Admission.{
  CapacitySnapshot, AdmissionVerdict, QueueRecord, decide_admission, build_queue_entry_request,
}
use vvz_lmrs.Queue.{QueueEntry, RequestQueue, add, snapshot, dispatch}
use vvz_lmrs.Commands.{
  RuntimeReply, failed, normalized, nothing, record_of, failure, reply, CommandResult, Artifacts,
  canonical_decision, estimate_result, chat_result, failure_result, queue_entry_from_record,
}

-- The keyword arguments of `_estimate_and_admit`.
pub record Request : Type 0 where
  pub request_id : String
  pub model_name : String
  pub token_breakdown : TokenBreakdown
  pub declared_context_window : ℤ
  pub capacity : CapacitySnapshot
  pub kv_bytes_per_token : ℤ
  pub per_request_overhead_bytes : ℤ
  pub runtime_batch_overhead_bytes : ℤ
  pub cache_hit_confirmed : Bool
  pub cache_adjusted_dynamic_vram_bytes : Option ℤ

-- the call of `estimate_request_capacity`
abbrev pub estimate_input : Request → EstimateInput
estimate_input r = record {
  request_id = r.request_id;
  model_name = r.model_name;
  token_breakdown = r.token_breakdown;
  declared_context_window = r.declared_context_window;
  usable_dynamic_vram_bytes = r.capacity.usable_dynamic_vram_bytes;
  kv_bytes_per_token = r.kv_bytes_per_token;
  per_request_overhead_bytes = r.per_request_overhead_bytes;
  runtime_batch_overhead_bytes = r.runtime_batch_overhead_bytes;
}

unfoldable pub estimate_and_admit : Request → Result (RequestCapacityEstimate × AdmissionVerdict)
estimate_and_admit r = do
  e ← estimate_request_capacity (estimate_input r)
  ok (e, decide_admission e r.capacity r.cache_hit_confirmed r.cache_adjusted_dynamic_vram_bytes)

module _ {R : Type 0} where
  -- What a result carries of a request that was estimated.
  abbrev pub artifacts_of : Request → RequestCapacityEstimate → AdmissionVerdict → Artifacts R
  artifacts_of r e v = record {
    reason_code = some v.reason_code;
    token_breakdown = some e.token_breakdown;
    capacity_snapshot = some r.capacity;
    queue_state = none;
    payload = nothing;
  }

  abbrev pub switching_artifacts : Request → Artifacts R
  switching_artifacts r = record {
    reason_code = some "MODEL_SWITCHING";
    token_breakdown = some r.token_breakdown;
    capacity_snapshot = some r.capacity;
    queue_state = none;
    payload = nothing;
  }

  unfoldable pub switching_rejection : Request → Bool → Result (CommandResult R)
  switching_rejection r true = estimate_result "reject" (switching_artifacts r)
  switching_rejection r false = chat_result "reject" (switching_artifacts r)

-- `_switching`
unfoldable pub is_switching : {S : Type 0} → Option (String → S → Bool) → String → S → Bool
is_switching none model_name s = false
is_switching (some predicate) model_name s = predicate model_name s

-- `if queue_sink is not None: queue_sink(updated)`
unfoldable pub call_sink :
    {S : Type 0}
    → Option (RequestQueue → S → Result (Unit {0}) × S)
    → RequestQueue
    → S
    → Result (Unit {0}) × S
call_sink none updated s = (ok tt, s)
call_sink (some sink) updated s = sink updated s

module _ {S R : Type 0} (model_switch_in_progress : Option (String → S → Bool)) where
  unfoldable pub estimate : Request → S → Result (CommandResult R)
  unfolding is_switching
  estimate r s =
      if is_switching model_switch_in_progress r.model_name s
      then switching_rejection r true
      else do (e, v) ← estimate_and_admit r; estimate_result v.decision (artifacts_of r e v)

  module _ (runtime_execute : S → Result (RuntimeReply R) × S)
      (queue_sink : Option (RequestQueue → S → Result (Unit {0}) × S)) (queue : RequestQueue)
      (request_metadata queue_metadata : Dict Scalar) (r : Request) where
    -- the branch of a queued verdict: the record and its entry, then the sink, then the result
    unfoldable pub after_sink :
        RequestCapacityEstimate
        → AdmissionVerdict
        → QueueRecord
        → RequestQueue
        → Result (Unit {0}) × S
        → Result (CommandResult R) × S
    after_sink e v rec updated (err error, s) = (err error, s)
    after_sink e v rec updated (ok _, s) = (
      chat_result v.decision (record (artifacts_of r e v) {
        queue_state = some (snapshot updated);
        payload = record_of rec;
      }),
      s,
    )

    unfoldable pub enqueue :
        RequestCapacityEstimate
        → AdmissionVerdict
        → Result (QueueRecord × QueueEntry)
        → S
        → Result (CommandResult R) × S
    unfolding call_sink after_sink
    enqueue e v (err error) s = (err error, s)
    enqueue e v (ok (rec, entry)) s =
        after_sink e v rec (add queue entry) (call_sink queue_sink (add queue entry) s)

    -- the branch of an execute verdict
    unfoldable pub after_runtime :
        RequestCapacityEstimate
        → AdmissionVerdict
        → Result (RuntimeReply R) × S
        → Result (CommandResult R) × S
    after_runtime e v (err error, s) = (err error, s)
    after_runtime e v (ok (failed f), s) = (
      ok (
          failure_result "chat" f.reason_code (failure f) (
            ("admitted", Value.bool true)
            ∷ ("retriable", Value.bool f.retriable)
            ∷ ("message", Value.text f.message)
            ∷ [])),
      s,
    )
    after_runtime e v (ok (normalized a), s) =
        (chat_result v.decision (record (artifacts_of r e v) { payload = reply a }), s)

    unfoldable pub chat_decided :
        RequestCapacityEstimate
        → AdmissionVerdict
        → Result String
        → S
        → Result (CommandResult R) × S
    unfolding enqueue after_runtime
    chat_decided e v (err error) s = (err error, s)
    chat_decided e v (ok decision) s =
        if decision == "reject"
        then (chat_result v.decision (artifacts_of r e v), s)
        else if decision == "queue"
        then enqueue e v
            (do
              rec ← build_queue_entry_request v e request_metadata queue_metadata
              entry ← queue_entry_from_record rec
              ok (rec, entry))
            s
        else after_runtime e v (runtime_execute s)

    unfoldable pub chat_admitted :
        Result (RequestCapacityEstimate × AdmissionVerdict) → S → Result (CommandResult R) × S
    unfolding chat_decided
    chat_admitted (err error) s = (err error, s)
    chat_admitted (ok (e, v)) s = chat_decided e v (canonical_decision v.decision) s

    unfoldable pub chat : S → Result (CommandResult R) × S
    unfolding is_switching chat_admitted
    chat s =
        if is_switching model_switch_in_progress r.model_name s
        then (switching_rejection r false, s)
        else chat_admitted (estimate_and_admit r) s

-- `launch_queued`: the dispatch worker's call
unfoldable pub launch_queued :
    {S R : Type 0}
    → RequestQueue
    → (S → Result ℤ × S)
    → (QueueEntry → S → Result R × S)
    → S
    → Result (Option QueueEntry) × S
launch_queued queue capacity_provider executor = dispatch capacity_provider executor queue
