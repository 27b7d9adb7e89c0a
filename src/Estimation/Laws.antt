-- ===== src/Estimation/Laws.antt =====
-- lmrs/estimation.py: for which arguments an estimate is returned, and what it is.
use vvz_lmrs.Prelude.{◌≡◌, ◌↔◌, arith, [], ok, >>=-eq-ok}
use vvz_lmrs.Prelude.Int.{ℤ, pos, ◌+ℤ◌, ◌*ℤ◌, ◌≤ℤ◌, int_laws}
use vvz_lmrs.Estimation.{
  TokenBreakdown, RequestCapacityEstimate, EstimateInput, calculate_required_tokens,
  calculate_dynamic_vram_requirement, estimate_request_capacity,
}

-- No token count of a breakdown is negative.
pub record IsCounted (b : TokenBreakdown) : Type 0 where
  pub input : pos 0 ≤ℤ b.input_tokens
  pub tool : pos 0 ≤ℤ b.tool_tokens
  pub service : pos 0 ≤ℤ b.service_tokens
  pub reserved : pos 0 ≤ℤ b.reserved_output_tokens

abbrev pub total_tokens : TokenBreakdown → ℤ
total_tokens b = b.input_tokens +ℤ b.tool_tokens +ℤ b.service_tokens +ℤ b.reserved_output_tokens

pub calculate_required_tokens_lem :
    (b : TokenBreakdown) → IsCounted b → calculate_required_tokens b ≡ ok (total_tokens b)
unfolding calculate_required_tokens
calculate_required_tokens_lem b h = ground arith

pub IsCounted-of_ok :
    (b : TokenBreakdown) (n : ℤ) → calculate_required_tokens b ≡ ok n → IsCounted b
unfolding calculate_required_tokens
IsCounted-of_ok b n h = ground arith

pub total_tokens_nonneg : (b : TokenBreakdown) → IsCounted b → pos 0 ≤ℤ total_tokens b
total_tokens_nonneg b h = omega int_laws

-- The arguments for which an estimate is defined.
pub record IsSized (i : EstimateInput) : Type 0 where
  pub counted : IsCounted i.token_breakdown
  pub kv : pos 0 ≤ℤ i.kv_bytes_per_token
  pub per_request : pos 0 ≤ℤ i.per_request_overhead_bytes
  pub batch : pos 0 ≤ℤ i.runtime_batch_overhead_bytes

abbrev pub vram_bytes : EstimateInput → ℤ
vram_bytes i =
    total_tokens i.token_breakdown *ℤ i.kv_bytes_per_token
    +ℤ i.per_request_overhead_bytes
    +ℤ i.runtime_batch_overhead_bytes

vram_lem :
    (t kv p r : ℤ)
    → pos 0 ≤ℤ t
    → pos 0 ≤ℤ kv
    → pos 0 ≤ℤ p
    → pos 0 ≤ℤ r
    → calculate_dynamic_vram_requirement t kv p r ≡ ok (t *ℤ kv +ℤ p +ℤ r)
unfolding calculate_dynamic_vram_requirement
vram_lem t kv p r a b c d = ground arith

-- On arguments that are not negative the estimate returns, its token count is the sum of the four
-- parts of the breakdown and its memory is tokens times KV bytes plus both overheads; the rest is
-- copied from the arguments.
pub estimate_exact :
    (i : EstimateInput)
    → IsSized i
    → estimate_request_capacity i
      ≡ ok (record {
        request_id = i.request_id;
        model_name = i.model_name;
        token_breakdown = i.token_breakdown;
        required_tokens = total_tokens i.token_breakdown;
        required_dynamic_vram_bytes = vram_bytes i;
        usable_dynamic_vram_bytes = i.usable_dynamic_vram_bytes;
        declared_context_window = i.declared_context_window;
        kv_bytes_per_token = i.kv_bytes_per_token;
        per_request_overhead_bytes = i.per_request_overhead_bytes;
        runtime_batch_overhead_bytes = i.runtime_batch_overhead_bytes;
        metadata = [];
      })
unfolding estimate_request_capacity
estimate_exact i h = rw (
  calculate_required_tokens_lem i.token_breakdown h.counted,
  vram_lem (total_tokens i.token_breakdown) i.kv_bytes_per_token i.per_request_overhead_bytes
      i.runtime_batch_overhead_bytes (total_tokens_nonneg i.token_breakdown h.counted) h.kv
      h.per_request h.batch,
)

IsSized-of_vram :
    (t kv p r n : ℤ)
    → calculate_dynamic_vram_requirement t kv p r ≡ ok n
    → (pos 0 ≤ℤ kv) × (pos 0 ≤ℤ p) × (pos 0 ≤ℤ r)
unfolding calculate_dynamic_vram_requirement
IsSized-of_vram t kv p r n h = ground arith

-- An estimate that is returned was made from arguments that are not negative.
pub estimate-IsSized :
    (i : EstimateInput) (e : RequestCapacityEstimate)
    → estimate_request_capacity i ≡ ok e
    → IsSized i
unfolding estimate_request_capacity
estimate-IsSized i e h =
    let (t, counted, rest) = >>=-eq-ok (calculate_required_tokens i.token_breakdown) _ h in
    let (v, sized, _) =
      >>=-eq-ok
        (calculate_dynamic_vram_requirement t i.kv_bytes_per_token i.per_request_overhead_bytes
          i.runtime_batch_overhead_bytes)
        _ rest in
    let (kv, per_request, batch) =
      IsSized-of_vram t i.kv_bytes_per_token i.per_request_overhead_bytes
        i.runtime_batch_overhead_bytes v sized in
    record {
      counted = IsCounted-of_ok i.token_breakdown t counted;
      kv = kv;
      per_request = per_request;
      batch = batch;
    }

-- An estimate is returned exactly when no argument is negative.
pub estimate_iff :
    (i : EstimateInput)
    → ((e : RequestCapacityEstimate) × (estimate_request_capacity i ≡ ok e)) ↔ IsSized i
estimate_iff i = (λ h. estimate-IsSized i h.0 h.1, λ sized. (_, estimate_exact i sized))
