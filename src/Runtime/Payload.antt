-- ===== src/Runtime/Payload.antt =====
-- lmrs/runtime_client.py: what is read of a request, and of the answer of vLLM.
use vvz_lmrs.Prelude.{String, Option, none, some, List, [], ◌∷◌, or_else}
use vvz_lmrs.Prelude.Dict.{Dict, lookup, insert, update}
use vvz_lmrs.Prelude.Value.{Value, Items, Fields}
use vvz_lmrs.Manager.Probe.{get, dict_or_empty}

pub record NormalizedRuntimeResult : Type 0 where
  pub assistant_message : Value
  pub usage : Dict Value
  pub status : String
  pub runtime_metadata : Dict Value
  pub telemetry : Dict Value
  pub metadata : Dict Value

-- A value, or None.
abbrev or_null : Option Value → Value
or_null v = or_else v Value.null

-- `dict(value) if isinstance(value, Mapping) else {}`
unfoldable pub entries : Fields → Dict Value
unfolding insert
entries Fields.end = []
entries (Fields.field k v rest) = (k, v) ∷ entries rest

unfoldable pub entries_of : Option Value → Dict Value
unfolding entries dict_or_empty
entries_of v = entries (dict_or_empty v)

-- `_request_value`, of a request whose fields are those of the mapping or of the object
unfoldable pub request_value : Dict Value → List String → Option Value
unfolding lookup
request_value request [] = none
request_value request (name ∷ names) = elim (lookup name request) [
  | none ↦ request_value request names
  | some Value.null ↦ request_value request names
  | some v ↦ some v
]

unfoldable pub chat_message : Option Value → Option Value → Option Value
chat_message (some (Value.text role)) (some Value.null) = none
chat_message (some (Value.text role)) (some content) =
    some (
      Value.dict
        (Fields.field "role" (Value.text role) (Fields.field "content" content Fields.end)))
chat_message _ _ = none

unfoldable pub message_of : Value → Option Value
unfolding chat_message get
message_of (Value.dict item) = chat_message (get "role" item) (get "content" item)
message_of _ = none

unfoldable pub messages_of : Items → Items
unfolding message_of
messages_of Items.nil = Items.nil
messages_of (Items.cons item items) =
    let rest = messages_of items in
    elim (message_of item) [ none ↦ rest | some m ↦ Items.cons m rest ]

unfoldable pub items_in : Option Value → Items
items_in none = Items.nil
items_in (some (Value.list items)) = items
items_in (some raw) = Items.cons raw Items.nil

unfoldable pub chat_messages : Dict Value → Items
unfolding messages_of items_in request_value
chat_messages request = messages_of (items_in (request_value request ("messages" ∷ [])))

-- `choices[0]` of the payload, where it is an object
unfoldable pub first_choice : Option Value → Fields
first_choice (some (Value.list (Items.cons (Value.dict first) _))) = first
first_choice _ = Fields.end

unfoldable pub message_field : Option Value → String → Value
unfolding get
message_field (some (Value.dict message)) key = or_null (get key message)
message_field _ key = Value.null

unfoldable pub normalize_vllm_payload : Fields → String → Value → String → NormalizedRuntimeResult
unfolding first_choice get message_field entries_of
normalize_vllm_payload payload model_name latency_ms base_url =
    let first = first_choice (get "choices" payload) in
    record {
      assistant_message = message_field (get "message" first) "content";
      usage = entries_of (get "usage" payload);
      status = "ok";
      runtime_metadata =
          ("model", or_else (get "model" payload) (Value.text model_name))
          ∷ ("response_id", or_null (get "id" payload))
          ∷ ("finish_reason", or_null (get "finish_reason" first))
          ∷ ("base_url", Value.text base_url)
          ∷ [];
      telemetry = ("latency_ms", latency_ms) ∷ [];
      metadata = ("role", message_field (get "message" first) "role") ∷ [];
    }

unfoldable pub with_request_option : Dict Value → Dict Value → String → Dict Value
unfolding request_value insert
with_request_option request options name = elim (request_value request (name ∷ [])) [
  | none ↦ options
  | some v ↦ insert name v options
]

unfoldable pub vllm_options : Dict Value → Dict Value → Dict Value
unfolding with_request_option request_value update entries_of
vllm_options default_options request =
    let merged = update default_options (entries_of (request_value request ("options" ∷ []))) in
    with_request_option request
      (with_request_option request
        (with_request_option request (with_request_option request merged "max_tokens")
          "temperature")
        "top_p")
      "stop"
