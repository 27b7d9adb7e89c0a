-- ===== src/Examples/Commands.antt =====
-- Examples of the theorems on the chat and estimate commands.
use vvz_lmrs.Prelude.{ℕ, ◌≡◌, ◌≢◌, refl, arith, false, none, some, [], Result, ok}
use vvz_lmrs.Prelude.Int.{pos, ◌+ℤ◌, ◌*ℤ◌}
use vvz_lmrs.Prelude.Dict.{lookup}
use vvz_lmrs.Prelude.Value.{Scalar, to_text, to_int}
use vvz_lmrs.Estimation.{
  estimate_request_capacity, calculate_required_tokens, calculate_dynamic_vram_requirement,
}
use vvz_lmrs.Admission.{
  evaluate_lmcache_admission, QueueRecord, decide_admission, build_queue_entry_request,
  missing_names, item,
}
use vvz_lmrs.Queue.{QueueEntry, add, largest_fit_scheduler}
use vvz_lmrs.Commands.{
  has_prefix, drop_chars, canonical_decision, chat_result, execution_outcome, execution_table,
  dry_run_table, dry_run_outcome, estimate_result, CommandResult, result_of,
  queue_entry_from_record,
}
use vvz_lmrs.Commands.Handler.{
  Request, switching_artifacts, is_switching, call_sink, estimate, estimate_and_admit,
  switching_rejection, chat, chat_admitted, chat_decided, enqueue, after_sink,
}
use vvz_lmrs.Commands.Paths.{chat_now}
use vvz_lmrs.Commands.Queued.{IsQueued, chat-IsQueued}
use vvz_lmrs.Commands.Launchable.{queued_launchable}
use vvz_lmrs.Commands.Agreement.{estimate-chat_reject, chat_calls}
use vvz_lmrs.Examples.Data.{
  request_on, capacity_of, estimate_on, session_metadata, admission_metadata, waiting, World, start,
  run_once, keep_queue, switching_to,
}

-- the request, and its chat, on a card with `usable` bytes of a pool of `pool`
abbrev request : ℕ → ℕ → Request
request usable pool = request_on (capacity_of usable pool)

abbrev chat_on : ℕ → ℕ → Result (CommandResult ℕ) × World
chat_on usable pool =
    chat_now none run_once (some keep_queue) waiting session_metadata admission_metadata
      (request usable pool) start

abbrev queued_record : QueueRecord
queued_record = record {
  request_id = "r1";
  session_id = Scalar.text "s1";
  model_name = "qwen";
  required_tokens = pos 100;
  required_dynamic_vram_bytes = pos 450;
  admitted_at = Scalar.text "t0";
  expires_at = Scalar.text "t9";
  priority = Scalar.int (pos 2);
  status = Scalar.text "queued";
  reason_code = "CAPACITY_CONSTRAINED";
}

abbrev queued_entry : QueueEntry
queued_entry = record {
  request_id = "r1";
  session_id = "s1";
  model_name = "qwen";
  required_tokens = pos 100;
  required_dynamic_vram_bytes = pos 450;
  admitted_at = "t0";
  expires_at = "t9";
  priority = pos 2;
  status = "queued";
  metadata = [];
}

chat-IsQueued_example :
    (is_switching {S = World} none "qwen" start ≡ false)
    × IsQueued
        (some keep_queue)
        waiting
        session_metadata
        admission_metadata
        (request 400 1000)
        start
        (chat_on 400 1000)
chat-IsQueued_example =
    chat-IsQueued none run_once (some keep_queue) waiting session_metadata admission_metadata
      (request 400 1000) start
      (unfold chat is_switching estimate_and_admit estimate_request_capacity
          calculate_required_tokens calculate_dynamic_vram_requirement ◌+ℤ◌ ◌*ℤ◌ chat_admitted
          chat_decided decide_admission canonical_decision enqueue build_queue_entry_request
          missing_names item lookup queue_entry_from_record to_text to_int call_sink after_sink
          chat_result execution_outcome execution_table has_prefix drop_chars in
        refl)

estimate-chat_reject_example :
    chat_now
      (some (switching_to "qwen"))
      run_once
      (some keep_queue)
      waiting
      session_metadata
      admission_metadata
      (request 500 1000)
      start
    ≡ (ok (result_of "chat" "rejected" false (switching_artifacts (request 500 1000))), start)
estimate-chat_reject_example =
    estimate-chat_reject (some (switching_to "qwen")) run_once (some keep_queue) waiting
      session_metadata admission_metadata (request 500 1000) start
      (result_of "estimate" "would_reject" false (switching_artifacts (request 500 1000)))
      (unfold estimate is_switching switching_rejection estimate_result dry_run_outcome
          canonical_decision dry_run_table has_prefix drop_chars in
        refl)
      refl

chat_calls_example : (chat_on 500 1000).1.calls ≡ 1
unfolding is_switching estimate_and_admit estimate_request_capacity calculate_required_tokens
    calculate_dynamic_vram_requirement ◌+ℤ◌ ◌*ℤ◌ decide_admission
chat_calls_example =
    chat_calls (λ w. w.calls) none run_once (some keep_queue) (λ w. refl)
      (λ q w. unfold call_sink in refl) waiting session_metadata admission_metadata
      (request 500 1000) start

queued_launchable_example :
    largest_fit_scheduler (add waiting queued_entry).entries (pos 450) ≢ none
unfolding evaluate_lmcache_admission
queued_launchable_example =
    queued_launchable (request 400 1000) (estimate_on 400) session_metadata admission_metadata
      queued_record queued_entry waiting (pos 450)
      (unfold decide_admission build_queue_entry_request missing_names item lookup in refl)
      (unfold queue_entry_from_record to_text to_int in refl) (unfold lookup in refl) (omega arith)
