-- ===== src/Examples/Runtimes.antt =====
-- Examples of the theorems on the runtime client.
use vvz_lmrs.Prelude.{String, ◌==◌, Option, some, [], ◌∷◌, Result, ok, err, refl, if◌then◌else◌}
use vvz_lmrs.Prelude.Dict.{Dict}
use vvz_lmrs.Prelude.Value.{Value, Items, Fields}
use vvz_lmrs.Runtime.Execution.{RuntimeClient, RuntimeProfile}
use vvz_lmrs.Runtime.Executor.{id_of_request, execute, executor_of}
use vvz_lmrs.Runtime.Failures.{IsReply, execute-IsReply}

-- A server that answers chat completions.
abbrev completion : Fields
completion =
    Fields.field "choices"
      (Value.list (
        Items.cons
          (Value.dict (
            Fields.field "message"
              (Value.dict (Fields.field "content" (Value.text "hello") Fields.end)) Fields.end))
          Items.nil))
      Fields.end

abbrev serve : String → String → Option (Dict Value) → Result Fields
serve method path body =
    if path == "/v1/chat/completions"
    then ok completion
    else err (record { type_name = "RuntimeError"; message = "vLLM HTTP 404: not found" })

abbrev runtime : RuntimeClient
runtime = record {
  backend = "vllm";
  vllm_client = some (record { base_url = "http://127.0.0.1:8000"; json_request = serve });
  default_options = [];
}

abbrev admitted : Dict Value
admitted =
    ("request_id", Value.text "r1")
    ∷ ("model_name", Value.text "qwen")
    ∷ (
      "messages",
      Value.list (
          Items.cons
            (Value.dict (
              Fields.field "role" (Value.text "user")
                (Fields.field "content" (Value.text "hi") Fields.end)))
            Items.nil),
    )
    ∷ []

abbrev no_executor : RuntimeProfile
no_executor = record { attributes = []; as_mapping = [] }

abbrev print_value : Value → String
print_value v = "value"

execute-IsReply_example :
    IsReply runtime
      (id_of_request print_value admitted)
      (Value.text "12.5")
      admitted
      (execute print_value runtime (Value.text "12.5") admitted no_executor)
unfolding executor_of
execute-IsReply_example =
    execute-IsReply print_value runtime (Value.text "12.5") admitted no_executor refl
