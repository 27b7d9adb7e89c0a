-- ===== src/Runtime/Executor.antt =====
-- lmrs/runtime_client.py: RuntimeClient.execute, through the executor of a profile.
use vvz_lmrs.Prelude.{
  String, Bool, false, ◌||◌, ◌==◌, Option, none, some, List, [], ◌∷◌, Result, ok, err, or_else,
  if◌then◌else◌,
}
use vvz_lmrs.Prelude.Dict.{Dict, lookup}
use vvz_lmrs.Prelude.Value.{Value}
use vvz_lmrs.Commands.{RuntimeReply}
use vvz_lmrs.Vram.Store.{is_truthy}
use vvz_lmrs.ModelCache.Snapshots.{elem}
use vvz_lmrs.Runtime.{VllmClient}
use vvz_lmrs.Runtime.Payload.{NormalizedRuntimeResult, request_value, entries_of}
use vvz_lmrs.Runtime.Execution.{
  RuntimeClient, RuntimeProfile, Member, RawResult, failure, execute_vllm,
}

-- `a or b` over the fields of a mapping, the last of them whatever it is
unfoldable pub first_truthy : Dict Value → List String → Option Value
unfolding is_truthy lookup
first_truthy raw [] = none
first_truthy raw (k ∷ []) = lookup k raw
first_truthy raw (k ∷ ks) =
    let rest = first_truthy raw ks in if is_truthy (lookup k raw) then lookup k raw else rest

-- `callable(candidate)`
unfoldable pub callable_of : Option Member → Option (Dict Value → Result RawResult)
callable_of (some (Member.callable f)) = some f
callable_of _ = none

unfoldable pub first_callable : Dict Member → List String → Option (Dict Value → Result RawResult)
unfolding callable_of lookup
first_callable members [] = none
first_callable members (name ∷ names) = elim (callable_of (lookup name members)) [
  | some f ↦ some f
  | none ↦ first_callable members names
]

unfoldable pub executor_of : RuntimeProfile → Option (Dict Value → Result RawResult)
unfolding first_callable
executor_of profile =
    elim (first_callable profile.attributes
      ("execute" ∷ "run" ∷ "generate" ∷ "chat" ∷ "complete" ∷ [])) [
        | some f ↦ some f
        | none ↦ first_callable profile.as_mapping ("executor" ∷ [])
      ]

-- by the client that is configured
unfoldable pub execute_with :
    RuntimeClient
    → String
    → Value
    → Dict Value
    → Option VllmClient
    → RuntimeReply NormalizedRuntimeResult
unfolding failure execute_vllm
execute_with c request_id latency_ms request none =
    failure c request_id "RUNTIME_EXECUTOR_UNAVAILABLE"
      "runtime profile does not expose an executor" false []
execute_with c request_id latency_ms request (some client) =
    if c.backend == "vllm"
    then execute_vllm c request_id latency_ms (some client) request
    else failure c request_id "RUNTIME_EXECUTOR_UNAVAILABLE"
        "runtime profile does not expose an executor" false []

unfoldable pub without_executor :
    RuntimeClient → String → Value → Dict Value → RuntimeReply NormalizedRuntimeResult
unfolding execute_with
without_executor c request_id latency_ms request =
    execute_with c request_id latency_ms request c.vllm_client

-- `print` is `str` of what is not a text.
module _ (print : Value → String) where
  -- `str(value)`
  unfoldable pub text_of : Value → String
  text_of (Value.text s) = s
  text_of v = print v

  -- `str(a or b or default)`
  unfoldable pub text_or : Option Value → String → String
  unfolding is_truthy text_of
  text_or v default = if is_truthy v then text_of (or_else v Value.null) else default

  unfoldable pub id_of_request : Dict Value → String
  unfolding text_or request_value
  id_of_request request = text_or (request_value request ("request_id" ∷ "id" ∷ [])) "unknown"

  unfoldable pub reported_failure :
      RuntimeClient → String → Dict Value → RuntimeReply NormalizedRuntimeResult
  unfolding failure text_or first_truthy is_truthy entries_of
  reported_failure c request_id raw =
      failure c request_id (text_or (lookup "reason_code" raw) "RUNTIME_CALL_FAILED")
        (text_or (first_truthy raw ("message" ∷ "error" ∷ [])) "runtime call failed")
        (is_truthy (lookup "retriable" raw)) (entries_of (lookup "metadata" raw))

  unfoldable pub status_of : Dict Value → String
  unfolding text_of
  status_of raw = text_of (or_else (lookup "status" raw) (Value.text "ok"))

  unfoldable pub reports_failure : Dict Value → Bool
  unfolding elem is_truthy status_of
  reports_failure raw =
      elem (status_of raw) ("error" ∷ "failed" ∷ "failure" ∷ []) || is_truthy (lookup "error" raw)

  unfoldable pub reported_result : Dict Value → NormalizedRuntimeResult
  unfolding first_truthy entries_of status_of
  reported_result raw = record {
    assistant_message =
        or_else (first_truthy raw ("assistant_message" ∷ "message" ∷ "content" ∷ "response" ∷ []))
          Value.null;
    usage = entries_of (lookup "usage" raw);
    status = status_of raw;
    runtime_metadata = entries_of (lookup "runtime_metadata" raw);
    telemetry = entries_of (lookup "telemetry" raw);
    metadata = entries_of (lookup "metadata" raw);
  }

  unfoldable pub from_mapping :
      RuntimeClient → String → Dict Value → RuntimeReply NormalizedRuntimeResult
  unfolding reports_failure reported_failure reported_result
  from_mapping c request_id raw =
      if reports_failure raw
      then reported_failure c request_id raw
      else RuntimeReply.normalized (reported_result raw)

  unfoldable pub after_executor :
      RuntimeClient → String → Result RawResult → RuntimeReply NormalizedRuntimeResult
  unfolding failure from_mapping
  after_executor c request_id (err raised) =
      failure c request_id "RUNTIME_CALL_FAILED" raised.message false
        (("exception_type", Value.text raised.type_name) ∷ [])
  after_executor c request_id (ok (RawResult.normal result)) = RuntimeReply.normalized result
  after_executor c request_id (ok (RawResult.signal f)) = RuntimeReply.failed f
  after_executor c request_id (ok (RawResult.mapping raw)) = from_mapping c request_id raw
  after_executor c request_id (ok (RawResult.other v)) = RuntimeReply.normalized (record {
    assistant_message = v;
    usage = [];
    status = "ok";
    runtime_metadata = [];
    telemetry = [];
    metadata = [];
  })

  -- the execution, by the executor that was found
  unfoldable pub execute_by :
      RuntimeClient
      → String
      → Value
      → Dict Value
      → Option (Dict Value → Result RawResult)
      → RuntimeReply NormalizedRuntimeResult
  unfolding after_executor without_executor
  execute_by c request_id latency_ms request (some executor) =
      after_executor c request_id (executor request)
  execute_by c request_id latency_ms request none = without_executor c request_id latency_ms request

  unfoldable pub execute :
      RuntimeClient → Value → Dict Value → RuntimeProfile → RuntimeReply NormalizedRuntimeResult
  unfolding id_of_request executor_of execute_by
  execute c latency_ms request profile =
      execute_by c (id_of_request request) latency_ms request (executor_of profile)
