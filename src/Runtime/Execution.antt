-- ===== src/Runtime/Execution.antt =====
-- lmrs/runtime_client.py: RuntimeClient._execute_vllm.
use vvz_lmrs.Prelude.{
  String, Bool, false, ◌||◌, Option, none, some, [], ◌∷◌, Result, ok, err, Exception, if◌then◌else◌,
}
use vvz_lmrs.Prelude.Dict.{Dict}
use vvz_lmrs.Prelude.Value.{Value, Items, Fields}
use vvz_lmrs.Commands.{RuntimeFailureSignal, RuntimeReply, has_prefix}
use vvz_lmrs.Runtime.{VllmClient, chat_completion}
use vvz_lmrs.Runtime.Payload.{
  NormalizedRuntimeResult, request_value, chat_messages, normalize_vllm_payload, vllm_options,
}

-- `part in text`
unfoldable pub contains : String → String → Bool
unfolding has_prefix
contains part String.[] = has_prefix part String.[]
contains part (String.◌∷◌ c s) = has_prefix part (String.◌∷◌ c s) || contains part s

-- What the profile's executor returns.
pub data RawResult : Type 0 where
  normal : NormalizedRuntimeResult → RawResult
  signal : RuntimeFailureSignal → RawResult
  mapping : Dict Value → RawResult
  other : Value → RawResult

pub record RuntimeClient : Type 0 where
  pub backend : String
  pub vllm_client : Option VllmClient
  pub default_options : Dict Value

-- What the runtime profile offers: under a name, something to call or something else; `as_mapping`
-- is what a mapping holds.
pub data Member : Type 0 where
  callable : (Dict Value → Result RawResult) → Member
  plain : Member

pub record RuntimeProfile : Type 0 where
  pub attributes : Dict Member
  pub as_mapping : Dict Member

unfoldable pub failure :
    RuntimeClient
    → String
    → String
    → String
    → Bool
    → Dict Value
    → RuntimeReply NormalizedRuntimeResult
failure c request_id reason message retriable metadata = RuntimeReply.failed (record {
  request_id = request_id;
  backend = c.backend;
  reason_code = reason;
  message = message;
  retriable = retriable;
  metadata = metadata;
})

unfoldable pub call_failed :
    RuntimeClient → String → String → VllmClient → Exception → RuntimeReply NormalizedRuntimeResult
unfolding failure contains
call_failed c request_id model_name client raised =
    let unavailable = contains "unavailable" raised.message in
    failure c request_id (if unavailable then "VLLM_UNAVAILABLE" else "RUNTIME_CALL_FAILED")
      raised.message unavailable
      (("exception_type", Value.text raised.type_name)
        ∷ ("base_url", Value.text client.base_url)
        ∷ ("model_name", Value.text model_name)
        ∷ [])

unfoldable pub answered :
    RuntimeClient
    → String
    → String
    → Value
    → VllmClient
    → Result Fields
    → RuntimeReply NormalizedRuntimeResult
unfolding call_failed normalize_vllm_payload
answered c request_id model_name latency_ms client (err raised) =
    call_failed c request_id model_name client raised
answered c request_id model_name latency_ms client (ok payload) =
    RuntimeReply.normalized (normalize_vllm_payload payload model_name latency_ms client.base_url)

-- the call, for a model and messages that are there
unfoldable pub call_vllm :
    RuntimeClient
    → String
    → String
    → Value
    → VllmClient
    → Dict Value
    → Items
    → RuntimeReply NormalizedRuntimeResult
unfolding failure answered chat_completion vllm_options
call_vllm c request_id model_name latency_ms client request Items.nil =
    failure c request_id "RUNTIME_CALL_FAILED" "the admitted request carries no messages" false []
call_vllm c request_id model_name latency_ms client request messages =
    answered c request_id model_name latency_ms client (
      chat_completion client model_name (Value.list messages)
        (vllm_options c.default_options request))

unfoldable pub execute_named :
    RuntimeClient
    → String
    → Value
    → VllmClient
    → Dict Value
    → Option Value
    → RuntimeReply NormalizedRuntimeResult
unfolding failure call_vllm chat_messages
execute_named c request_id latency_ms client request (some (Value.text (String.◌∷◌ h t))) =
    call_vllm c request_id (String.◌∷◌ h t) latency_ms client request (chat_messages request)
execute_named c request_id latency_ms client request _ =
    failure c request_id "RUNTIME_CALL_FAILED" "the admitted request does not name a model" false []

-- `_execute_vllm`; the rounded duration of the call is an argument
unfoldable pub execute_vllm :
    RuntimeClient
    → String
    → Value
    → Option VllmClient
    → Dict Value
    → RuntimeReply NormalizedRuntimeResult
unfolding failure execute_named request_value
execute_vllm c request_id latency_ms none request =
    failure c request_id "RUNTIME_EXECUTOR_UNAVAILABLE" "no vLLM client is configured" false []
execute_vllm c request_id latency_ms (some client) request =
    execute_named c request_id latency_ms client request
      (request_value request ("model_name" ∷ "model" ∷ []))
