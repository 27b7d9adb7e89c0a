-- ===== src/Estimation.antt =====
-- lmrs/estimation.py: token accounting and the capacity estimate of a request.
pub mod Laws
use vvz_lmrs.Prelude.{String, Bool, [], Result, ok, value_error, ◌>>=◌, ◌>>◌, raise_if}
use vvz_lmrs.Prelude.Int.{ℤ, pos, ◌+ℤ◌, ◌*ℤ◌, ltb_ℤ}
use vvz_lmrs.Prelude.Dict.{Dict}
use vvz_lmrs.Prelude.Value.{Value}

pub record TokenBreakdown : Type 0 where
  pub input_tokens : ℤ
  pub tool_tokens : ℤ
  pub service_tokens : ℤ
  pub reserved_output_tokens : ℤ
  pub tokenizer_name : String
  pub tokenizer_accuracy : String
  pub rough_estimate : Bool
  pub metadata : Dict Value

pub record RequestCapacityEstimate : Type 0 where
  pub request_id : String
  pub model_name : String
  pub token_breakdown : TokenBreakdown
  pub required_tokens : ℤ
  pub required_dynamic_vram_bytes : ℤ
  pub usable_dynamic_vram_bytes : ℤ
  pub declared_context_window : ℤ
  pub kv_bytes_per_token : ℤ
  pub per_request_overhead_bytes : ℤ
  pub runtime_batch_overhead_bytes : ℤ
  pub metadata : Dict Value

unfoldable pub calculate_required_tokens : TokenBreakdown → Result ℤ
calculate_required_tokens b = do
  raise_if (ltb_ℤ b.input_tokens (pos 0)) (value_error "input_tokens must be non-negative")
  raise_if (ltb_ℤ b.tool_tokens (pos 0)) (value_error "tool_tokens must be non-negative")
  raise_if (ltb_ℤ b.service_tokens (pos 0)) (value_error "service_tokens must be non-negative")
  raise_if (ltb_ℤ b.reserved_output_tokens (pos 0))
      (value_error "reserved_output_tokens must be non-negative")
  ok (b.input_tokens +ℤ b.tool_tokens +ℤ b.service_tokens +ℤ b.reserved_output_tokens)

unfoldable pub calculate_dynamic_vram_requirement : ℤ → ℤ → ℤ → ℤ → Result ℤ
calculate_dynamic_vram_requirement tokens kv per_request batch = do
  raise_if (ltb_ℤ tokens (pos 0)) (value_error "required_tokens must be non-negative")
  raise_if (ltb_ℤ kv (pos 0)) (value_error "kv_bytes_per_token must be non-negative")
  raise_if (ltb_ℤ per_request (pos 0))
      (value_error "per_request_overhead_bytes must be non-negative")
  raise_if (ltb_ℤ batch (pos 0)) (value_error "runtime_batch_overhead_bytes must be non-negative")
  ok (tokens *ℤ kv +ℤ per_request +ℤ batch)

-- The keyword arguments of `estimate_request_capacity`.
pub record EstimateInput : Type 0 where
  pub request_id : String
  pub model_name : String
  pub token_breakdown : TokenBreakdown
  pub declared_context_window : ℤ
  pub usable_dynamic_vram_bytes : ℤ
  pub kv_bytes_per_token : ℤ
  pub per_request_overhead_bytes : ℤ
  pub runtime_batch_overhead_bytes : ℤ

unfoldable pub estimate_request_capacity : EstimateInput → Result RequestCapacityEstimate
estimate_request_capacity i = do
  required_tokens ← calculate_required_tokens i.token_breakdown
  required_vram ←
      calculate_dynamic_vram_requirement required_tokens i.kv_bytes_per_token
        i.per_request_overhead_bytes i.runtime_batch_overhead_bytes
  ok (record {
    request_id = i.request_id;
    model_name = i.model_name;
    token_breakdown = i.token_breakdown;
    required_tokens = required_tokens;
    required_dynamic_vram_bytes = required_vram;
    usable_dynamic_vram_bytes = i.usable_dynamic_vram_bytes;
    declared_context_window = i.declared_context_window;
    kv_bytes_per_token = i.kv_bytes_per_token;
    per_request_overhead_bytes = i.per_request_overhead_bytes;
    runtime_batch_overhead_bytes = i.runtime_batch_overhead_bytes;
    metadata = [];
  })
