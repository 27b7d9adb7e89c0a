-- ===== src/Commands/Paths.antt =====
-- What the chat path does on each verdict: what it returns, and how it leaves the world.
use vvz_lmrs.Prelude.{
  ◌≡◌, refl, ap, ◌⊎◌, ◌∙◌, String, Bool, true, false, Option, none, some, [], ◌∷◌, Result, ok, err,
  ◌>>=◌,
}
use vvz_lmrs.Prelude.Int.{ℤ, ◌≤ℤ◌, ◌<ℤ◌}
use vvz_lmrs.Prelude.Dict.{Dict}
use vvz_lmrs.Prelude.Value.{Value, Scalar}
use vvz_lmrs.Estimation.{RequestCapacityEstimate, estimate_request_capacity}
use vvz_lmrs.Admission.{AdmissionVerdict, QueueRecord, decide_admission, build_queue_entry_request}
use vvz_lmrs.Admission.Decision.{Admissible, charge, decision_iff}
use vvz_lmrs.Queue.{QueueEntry, RequestQueue, add, snapshot}
use vvz_lmrs.Commands.{
  RuntimeReply, failed, normalized, record_of, failure, reply, CommandResult, Artifacts,
  canonical_decision, chat_result, execution_outcome, execution_table, failure_result,
  queue_entry_from_record, result_of,
}
use vvz_lmrs.Commands.Handler.{
  Request, estimate_input, estimate_and_admit, artifacts_of, switching_artifacts, is_switching,
  enqueue, after_runtime, chat_decided, chat_admitted, chat, switching_rejection,
}

-- The verdict on a request with an estimate, and the memory that it is charged.
abbrev pub verdict_on : Request → RequestCapacityEstimate → AdmissionVerdict
verdict_on r e =
    decide_admission e r.capacity r.cache_hit_confirmed r.cache_adjusted_dynamic_vram_bytes

abbrev pub charged : Request → RequestCapacityEstimate → ℤ
charged r e = charge e r.cache_hit_confirmed r.cache_adjusted_dynamic_vram_bytes

-- The record of a request and its entry.
abbrev pub queue_parts :
    Request
    → RequestCapacityEstimate
    → Dict Scalar
    → Dict Scalar
    → Result (QueueRecord × QueueEntry)
queue_parts r e request_metadata queue_metadata = do
  rec ← build_queue_entry_request (verdict_on r e) e request_metadata queue_metadata
  entry ← queue_entry_from_record rec
  ok (rec, entry)

-- What a result carries of a request that was queued.
abbrev pub queued_artifacts :
    {R : Type 0}
    → Request
    → RequestCapacityEstimate
    → RequestQueue
    → QueueRecord
    → QueueEntry
    → Artifacts R
queued_artifacts r e queue rec entry = record (artifacts_of r e (verdict_on r e)) {
  queue_state = some (snapshot (add queue entry));
  payload = record_of rec;
}

-- What a reply of the runtime is reported as: an exception of the call is passed on, a failure that the
-- runtime reports is a rejection with its reason, and a normalized result is an executed command.
abbrev pub report :
    {R : Type 0}
    → Request
    → RequestCapacityEstimate
    → Result (RuntimeReply R)
    → Result (CommandResult R)
report r e (err error) = err error
report r e (ok (failed f)) = ok (record {
  command = "chat";
  outcome = "rejected";
  success = false;
  reason_code = some f.reason_code;
  token_breakdown = none;
  capacity_snapshot = none;
  queue_state = none;
  payload = failure f;
  metadata =
      ("admitted", Value.bool true)
      ∷ ("retriable", Value.bool f.retriable)
      ∷ ("message", Value.text f.message)
      ∷ [];
})
report r e (ok (normalized a)) = ok (
    result_of "chat" "executed" true
      (record (artifacts_of r e (verdict_on r e)) { payload = reply a }))

module _ {S R : Type 0} (model_switch_in_progress : Option (String → S → Bool))
    (runtime_execute : S → Result (RuntimeReply R) × S)
    (queue_sink : Option (RequestQueue → S → Result (Unit {0}) × S)) (queue : RequestQueue)
    (request_metadata queue_metadata : Dict Scalar) (r : Request) (s : S) where
  -- the chat call under these parameters
  abbrev pub chat_now : Result (CommandResult R) × S
  chat_now =
      chat model_switch_in_progress runtime_execute queue_sink queue request_metadata queue_metadata
        r s

  -- While a switch runs for its model, a chat request is rejected with MODEL_SWITCHING, and neither
  -- the runtime nor the queue's owner is called: the world stays as it was.
  pub chat_switching :
      is_switching model_switch_in_progress r.model_name s ≡ true
      → chat_now ≡ (ok (result_of "chat" "rejected" false (switching_artifacts r)), s)
  unfolding chat switching_rejection chat_result execution_outcome canonical_decision
      execution_table
  chat_switching h = rw h refl

  module _ (e : RequestCapacityEstimate)
      (idle : is_switching model_switch_in_progress r.model_name s ≡ false)
      (estimated : estimate_request_capacity (estimate_input r) ≡ ok e) where
    -- what follows the verdict, by its canonical decision
    abbrev decided : Result String → Result (CommandResult R) × S
    decided c =
        chat_decided model_switch_in_progress runtime_execute queue_sink queue request_metadata
          queue_metadata r e (verdict_on r e) c s

    chat_admits : chat_now ≡ decided (canonical_decision (verdict_on r e).decision)
    unfolding chat estimate_and_admit chat_admitted
    chat_admits = rw (idle, estimated) refl

    pub chat_of_reject :
        (verdict_on r e).decision ≡ "would_reject"
        → chat_now ≡ (ok (result_of "chat" "rejected" false (artifacts_of r e (verdict_on r e))), s)
    unfolding chat_decided chat_result execution_outcome canonical_decision execution_table
    chat_of_reject d = chat_admits ∙ rw d refl

    -- While no switch runs for its model, a chat request whose estimate exceeds the context window, or
    -- the pool, is rejected with the reason code of its verdict, and the world stays as it was.
    pub chat-rejects :
        (e.declared_context_window <ℤ e.required_tokens)
          ⊎ (r.capacity.max_dynamic_pool_bytes <ℤ charged r e)
        → chat_now ≡ (ok (result_of "chat" "rejected" false (artifacts_of r e (verdict_on r e))), s)
    chat-rejects h = chat_of_reject (
        (decision_iff e r.capacity r.cache_hit_confirmed r.cache_adjusted_dynamic_vram_bytes).2.1 h)

    reported :
        (out : Result (RuntimeReply R) × S)
        → (verdict_on r e).decision ≡ "would_execute"
        → after_runtime model_switch_in_progress runtime_execute queue_sink queue request_metadata
            queue_metadata r e
            (verdict_on r e)
            out
          ≡ (report r e out.0, out.1)
    unfolding after_runtime chat_result failure_result execution_outcome canonical_decision
        execution_table
    reported (err error, t) d = refl
    reported (ok (failed f), t) d = refl
    reported (ok (normalized a), t) d = rw d refl

    pub chat-runs :
        Admissible e r.capacity (charged r e)
        → charged r e ≤ℤ r.capacity.usable_dynamic_vram_bytes
        → chat_now ≡ (report r e (runtime_execute s).0, (runtime_execute s).1)
    unfolding chat_decided canonical_decision
    chat-runs h k =
        let d =
          (decision_iff e r.capacity r.cache_hit_confirmed r.cache_adjusted_dynamic_vram_bytes).0.1
            (h, k) in
        chat_admits ∙ ap decided (ap canonical_decision d) ∙ reported (runtime_execute s) d

    -- While no switch runs for its model, a chat request whose estimate fits the window and the pool
    -- but not the memory that is usable now goes on with the queue.
    pub chat_enqueues :
        Admissible e r.capacity (charged r e)
        → r.capacity.usable_dynamic_vram_bytes <ℤ charged r e
        → chat_now
          ≡ enqueue model_switch_in_progress runtime_execute queue_sink queue request_metadata
              queue_metadata r e
              (verdict_on r e)
              (queue_parts r e request_metadata queue_metadata)
              s
    unfolding chat_decided canonical_decision
    chat_enqueues h k =
        let d =
          (decision_iff e r.capacity r.cache_hit_confirmed r.cache_adjusted_dynamic_vram_bytes).1.1
            (h, k) in
        chat_admits ∙ ap decided (ap canonical_decision d)
