-- ===== src/Runtime.antt =====
-- lmrs/runtime_client.py: VLLMOpenAIClient, the HTTP request being a parameter.
pub mod Payload
pub mod Execution
pub mod Executor
pub mod Failures
use vvz_lmrs.Prelude.{
  ℕ, suc, String, Bool, true, false, ◌||◌, ◌==◌, Option, none, some, List, [], ◌∷◌, Result, ok, err,
  type_error, ◌>>=◌, or_else, if◌then◌else◌,
}
use vvz_lmrs.Prelude.Int.{ℤ, pos, ◌+ℤ◌}
use vvz_lmrs.Prelude.Dict.{Dict, update, insert}
use vvz_lmrs.Prelude.Value.{Value, Items, Fields}
use vvz_lmrs.Lifecycle.{ProbeResult}
use vvz_lmrs.Manager.Probe.{get}
use vvz_lmrs.ModelCache.Snapshots.{elem}

-- `_json_request` takes a method, a path and a body, and returns an object or raises.
pub record VllmClient : Type 0 where
  pub base_url : String
  pub json_request : String → String → Option (Dict Value) → Result Fields

-- The texts under `id` of the objects of a list.
unfoldable pub id_of : Value → Option Value
unfolding get
id_of (Value.dict item) = get "id" item
id_of _ = none

unfoldable pub served_ids : Items → List String
unfolding id_of
served_ids Items.nil = []
served_ids (Items.cons item items) = elim (id_of item) [
  | some (Value.text s) ↦ s ∷ served_ids items
  | _ ↦ served_ids items
]

unfoldable pub served_of : Option Value → List String
unfolding served_ids
served_of (some (Value.list items)) = served_ids items
served_of _ = []

abbrev probe_of : VllmClient → Bool → List String → Option String → ProbeResult
probe_of client ok_flag models error = record {
  is_ok = ok_flag;
  served_models = models;
  metadata = some (("base_url", Value.text client.base_url) ∷ []);
  error = error;
}

unfoldable pub listing : VllmClient → Result Fields → ProbeResult
unfolding get served_of
listing client (err raised) = probe_of client false [] (some raised.message)
listing client (ok payload) = probe_of client true (served_of (get "data" payload)) none

unfoldable pub list_models : VllmClient → ProbeResult
unfolding listing
list_models client = listing client (client.json_request "GET" "/v1/models" none)

unfoldable pub served_among : String → ProbeResult → ProbeResult
unfolding elem
served_among model_name result =
    if result.is_ok
    then record result {
      is_ok = elem model_name result.served_models;
      error =
          if elem model_name result.served_models
          then none
          else some "model is not reported by vLLM /v1/models";
    }
    else result

unfoldable pub is_model_served : VllmClient → String → ProbeResult
unfolding served_among list_models
is_model_served client model_name = served_among model_name (list_models client)

-- The first option that names a parameter of `chat_completion`, which Python then refuses.
unfoldable pub named_twice : Dict Value → Option String
unfolding elem
named_twice [] = none
named_twice ((k, v) ∷ options) =
    if elem k ("self" ∷ "model_name" ∷ "messages" ∷ []) then some k else named_twice options

unfoldable pub completion_body : String → Value → Dict Value → Dict Value
unfolding update
completion_body model_name messages options =
    update (("model", Value.text model_name) ∷ ("messages", messages) ∷ []) options

-- the message of the refusal leaves the names out
unfoldable pub chat_completion : VllmClient → String → Value → Dict Value → Result Fields
unfolding named_twice completion_body
chat_completion client model_name messages options = elim (named_twice options) [
  | some _ ↦ err (type_error "chat_completion() got multiple values for an argument")
  | none ↦
      client.json_request "POST" "/v1/chat/completions"
        (some (completion_body model_name messages options))
]

unfoldable pub length_of : Items → ℤ
length_of Items.nil = pos 0
length_of (Items.cons _ items) = pos 1 +ℤ length_of items

unfoldable pub token_count : Fields → Option ℤ
unfolding get length_of
token_count payload = elim (get "count" payload) [
  | some (Value.int n) ↦ some n
  | some (Value.bool true) ↦ some (pos 1)
  | some (Value.bool false) ↦ some (pos 0)
  | _ ↦ elim (get "tokens" payload) [
    | some (Value.list tokens) ↦ some (length_of tokens)
    | _ ↦ none
  ]
]

unfoldable pub counted : Result Fields → Option ℤ
unfolding token_count
counted (err _) = none
counted (ok payload) = token_count payload

unfoldable pub count_prompt_tokens : VllmClient → String → Value → Option ℤ
unfolding counted
count_prompt_tokens client model_name messages = counted (
    client.json_request "POST" "/tokenize"
      (some (("model", Value.text model_name) ∷ ("messages", messages) ∷ [])))
