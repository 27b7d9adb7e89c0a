-- ===== src/Runtime/Failures.antt =====
-- lmrs/runtime_client.py: what a reply of the runtime says, when the profile has no executor.
use vvz_lmrs.Prelude.{
  String, Bool, true, false, ◌≡◌, ◌≢◌, ◌↔◌, refl, sym, subst, Option, none, some, [], ◌∷◌, Result,
  ok, err, ◌==◌, eq_iff, Bool-cases, if_case, inl, inr, Exception,
}
use vvz_lmrs.Prelude.Dict.{Dict}
use vvz_lmrs.Prelude.Value.{Value, Items, Fields}
use vvz_lmrs.Commands.{RuntimeReply}
use vvz_lmrs.Runtime.{VllmClient, chat_completion}
use vvz_lmrs.Runtime.Payload.{
  NormalizedRuntimeResult, chat_messages, request_value, vllm_options, normalize_vllm_payload,
}
use vvz_lmrs.Runtime.Execution.{
  RuntimeClient, RuntimeProfile, contains, failure, call_failed, answered, call_vllm, execute_named,
  execute_vllm,
}
use vvz_lmrs.Runtime.Executor.{
  executor_of, id_of_request, without_executor, execute_with, execute_by, execute,
}

-- A completion that the client returned for the request.
pub record IsCompleted (c : RuntimeClient) (latency_ms : Value) (request : Dict Value)
    (result : NormalizedRuntimeResult) : Type 0 where
  client : VllmClient
  model_name : String
  payload : Fields
  has_client : c.vllm_client ≡ some client
  is_named : request_value request ("model_name" ∷ "model" ∷ []) ≡ some (Value.text model_name)
  has_messages : chat_messages request ≢ Items.nil
  completes :
      chat_completion client model_name
        (Value.list (chat_messages request))
        (vllm_options c.default_options request)
      ≡ ok payload
  is_normalized : result ≡ normalize_vllm_payload payload model_name latency_ms client.base_url

-- A normalized reply is a completion; a failure names the request and the backend, and may be
-- retried exactly when its reason is that vLLM is unavailable.
unfoldable pub IsReply :
    RuntimeClient → String → Value → Dict Value → RuntimeReply NormalizedRuntimeResult → Type 0
IsReply c request_id latency_ms request (RuntimeReply.normalized result) =
    IsCompleted c latency_ms request result
IsReply c request_id latency_ms request (RuntimeReply.failed f) =
    (f.request_id ≡ request_id)
    × (f.backend ≡ c.backend)
    × ((f.retriable ≡ true) ↔ (f.reason_code ≡ "VLLM_UNAVAILABLE"))

-- The test of the reason decides.
retriable_iff :
    (b : Bool) (reason : String)
    → (reason == "VLLM_UNAVAILABLE") ≡ b
    → (b ≡ true) ↔ (reason ≡ "VLLM_UNAVAILABLE")
retriable_iff b reason h =
    subst (λ d. (d ≡ true) ↔ (reason ≡ "VLLM_UNAVAILABLE")) h (eq_iff reason "VLLM_UNAVAILABLE")

module _ (c : RuntimeClient) (request_id : String) (latency_ms : Value) (request : Dict Value) where
  -- A failure whose reason is another.
  failure-IsReply :
      (reason message : String)
      → (reason == "VLLM_UNAVAILABLE") ≡ false
      → IsReply c request_id latency_ms request (failure c request_id reason message false [])
  unfolding IsReply failure
  failure-IsReply reason message differs = (refl, refl, retriable_iff false reason differs)

  call_failed-IsReply :
      (model_name : String) (client : VllmClient) (raised : Exception)
      → IsReply c request_id latency_ms request (call_failed c request_id model_name client raised)
  unfolding IsReply call_failed failure
  call_failed-IsReply model_name client raised =
      elim (Bool-cases (contains "unavailable" raised.message)) [
        | inl e ↦ rw e (refl, refl, retriable_iff true "VLLM_UNAVAILABLE" refl)
        | inr e ↦ rw e (refl, refl, retriable_iff false "RUNTIME_CALL_FAILED" refl)
      ]

  module _ (client : VllmClient) (has_client : c.vllm_client ≡ some client) where
    answered-IsReply :
        (model_name : String)
        → request_value request ("model_name" ∷ "model" ∷ []) ≡ some (Value.text model_name)
        → chat_messages request ≢ Items.nil
        → (answer : Result Fields)
        → chat_completion client model_name
            (Value.list (chat_messages request))
            (vllm_options c.default_options request)
          ≡ answer
        → IsReply c request_id latency_ms request
            (answered c request_id model_name latency_ms client answer)
    unfolding IsReply answered
    answered-IsReply model_name is_named has_messages (err raised) eq =
        call_failed-IsReply model_name client raised
    answered-IsReply model_name is_named has_messages (ok payload) eq = record {
      client = client;
      model_name = model_name;
      payload = payload;
      has_client = has_client;
      is_named = is_named;
      has_messages = has_messages;
      completes = eq;
      is_normalized = refl;
    }

    call_vllm-IsReply :
        (model_name : String)
        → request_value request ("model_name" ∷ "model" ∷ []) ≡ some (Value.text model_name)
        → (messages : Items) → chat_messages request ≡ messages
        → IsReply c request_id latency_ms request
            (call_vllm c request_id model_name latency_ms client request messages)
    unfolding call_vllm
    call_vllm-IsReply model_name is_named Items.nil eq =
        failure-IsReply "RUNTIME_CALL_FAILED" "the admitted request carries no messages" refl
    call_vllm-IsReply model_name is_named (Items.cons m ms) eq =
        answered-IsReply model_name is_named (λ no_items. cc)
          (chat_completion client model_name (Value.list (Items.cons m ms))
            (vllm_options c.default_options request))
          (rw eq refl)

    execute_named-IsReply :
        (model : Option Value)
        → request_value request ("model_name" ∷ "model" ∷ []) ≡ model
        → IsReply c request_id latency_ms request
            (execute_named c request_id latency_ms client request model)
    unfolding execute_named
    execute_named-IsReply (some (Value.text (String.◌∷◌ h t))) eq =
        call_vllm-IsReply (String.◌∷◌ h t) eq (chat_messages request) refl
    execute_named-IsReply _ eq =
        failure-IsReply "RUNTIME_CALL_FAILED" "the admitted request does not name a model" refl

  execute_with-IsReply :
      (client : Option VllmClient)
      → c.vllm_client ≡ client
      → IsReply c request_id latency_ms request
          (execute_with c request_id latency_ms request client)
  unfolding execute_with execute_vllm
  execute_with-IsReply none eq =
      failure-IsReply "RUNTIME_EXECUTOR_UNAVAILABLE" "runtime profile does not expose an executor"
        refl
  execute_with-IsReply (some client) eq =
      if_case (IsReply c request_id latency_ms request) (c.backend == "vllm")
        (λ _.
          execute_named-IsReply client eq (request_value request ("model_name" ∷ "model" ∷ []))
            refl)
        (λ _.
          failure-IsReply "RUNTIME_EXECUTOR_UNAVAILABLE"
            "runtime profile does not expose an executor" refl)

  without_executor-IsReply :
      IsReply c request_id latency_ms request (without_executor c request_id latency_ms request)
  unfolding without_executor
  without_executor-IsReply = execute_with-IsReply c.vllm_client refl

-- When the profile has no executor, a normalized reply is a completion that the configured client
-- returned for the model and the messages of the request; a failure names the request and the
-- backend, and may be retried exactly when its reason is that vLLM is unavailable.
pub execute-IsReply :
    (print : Value → String) (c : RuntimeClient) (latency_ms : Value) (request : Dict Value)
    (profile : RuntimeProfile)
    → executor_of profile ≡ none
    → IsReply c
        (id_of_request print request)
        latency_ms
        request
        (execute print c latency_ms request profile)
unfolding execute execute_by
execute-IsReply print c latency_ms request profile no_executor =
    subst
      (λ found.
        IsReply c (id_of_request print request) latency_ms request
          (execute_by print c (id_of_request print request) latency_ms request found))
      (sym no_executor)
      (without_executor-IsReply c (id_of_request print request) latency_ms request)
