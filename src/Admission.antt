-- ===== src/Admission.antt =====
-- lmrs/admission.py: the verdict on a request, and the queue record of a queueable one.
pub mod Decision
pub mod Record
use vvz_lmrs.Prelude.{
  String, Bool, true, false, not, ◌&&◌, ◌==◌, Option, none, some, List, [], ◌∷◌, ◌++◌, Result, ok,
  err, value_error, ◌>>=◌, ◌>>◌, raise_if, if◌then◌else◌, or_else,
}
use vvz_lmrs.Prelude.Int.{ℤ, pos, ltb_ℤ}
use vvz_lmrs.Prelude.Dict.{Dict, lookup}
use vvz_lmrs.Prelude.Value.{Value, Scalar, is_null}
use vvz_lmrs.Estimation.{RequestCapacityEstimate}
use Prim.Native.String.{◌++◌ as concat}

pub record CapacitySnapshot : Type 0 where
  pub usable_dynamic_vram_bytes : ℤ
  pub max_dynamic_pool_bytes : ℤ
  pub model_loaded : Bool
  pub runtime_ready : Bool
  pub metadata : Dict Value

pub record AdmissionVerdict : Type 0 where
  pub decision : String
  pub reason_code : String
  pub request_id : String
  pub model_name : String
  pub required_tokens : ℤ
  pub required_dynamic_vram_bytes : ℤ
  pub queueable : Bool
  pub metadata : Dict Value

unfoldable pub evaluate_lmcache_admission : Bool → ℤ → Option ℤ → ℤ
evaluate_lmcache_admission false full adjusted = full
evaluate_lmcache_admission true full none = full
evaluate_lmcache_admission true full (some adjusted) = adjusted

-- The four `return` statements of `decide_admission`, by their reason codes.
pub data Ruling : Type 0 where
  context_overflow request_too_large capacity_constrained capacity_available : Ruling

unfoldable pub decision_of : Ruling → String
decision_of context_overflow = "would_reject"
decision_of request_too_large = "would_reject"
decision_of capacity_constrained = "would_queue"
decision_of capacity_available = "would_execute"

unfoldable pub reason_of : Ruling → String
reason_of context_overflow = "CONTEXT_OVERFLOW"
reason_of request_too_large = "REQUEST_TOO_LARGE"
reason_of capacity_constrained = "CAPACITY_CONSTRAINED"
reason_of capacity_available = "CAPACITY_AVAILABLE"

unfoldable pub queueable_of : Ruling → Bool
queueable_of capacity_constrained = true
queueable_of _ = false

-- The tests of `decide_admission`, in order, on the memory that the request is charged.
unfoldable pub rule : RequestCapacityEstimate → CapacitySnapshot → ℤ → Ruling
rule estimate capacity required_vram =
    if ltb_ℤ estimate.declared_context_window estimate.required_tokens
    then context_overflow
    else if ltb_ℤ capacity.max_dynamic_pool_bytes required_vram
    then request_too_large
    else if ltb_ℤ capacity.usable_dynamic_vram_bytes required_vram
    then capacity_constrained
    else capacity_available

unfoldable pub decide_admission :
    RequestCapacityEstimate → CapacitySnapshot → Bool → Option ℤ → AdmissionVerdict
unfolding rule decision_of reason_of queueable_of evaluate_lmcache_admission
decide_admission estimate capacity hit adjusted =
    let required_vram =
      evaluate_lmcache_admission hit estimate.required_dynamic_vram_bytes adjusted in
    let ruling = rule estimate capacity required_vram in
    record {
      decision = decision_of ruling;
      reason_code = reason_of ruling;
      request_id = estimate.request_id;
      model_name = estimate.model_name;
      required_tokens = estimate.required_tokens;
      required_dynamic_vram_bytes = required_vram;
      queueable = queueable_of ruling;
      metadata = [];
    }

-- The dict that `build_queue_entry_request` returns; its keys are fixed.
pub record QueueRecord : Type 0 where
  pub request_id : String
  pub session_id : Scalar
  pub model_name : String
  pub required_tokens : ℤ
  pub required_dynamic_vram_bytes : ℤ
  pub admitted_at : Scalar
  pub expires_at : Scalar
  pub priority : Scalar
  pub status : Scalar
  pub reason_code : String

-- `metadata.get(name) is None`
abbrev pub is_absent : Dict Scalar → String → Bool
is_absent d name = elim (lookup name d) [ none ↦ true | some v ↦ is_null v ]

unfoldable pub missing_names : Dict Scalar → List String → List String
unfolding lookup
missing_names d [] = []
missing_names d (name ∷ names) =
    let rest = missing_names d names in if is_absent d name then name ∷ rest else rest

-- `", ".join(names)`
unfoldable pub join_names : List String → String
join_names [] = ""
join_names (name ∷ []) = name
join_names (name ∷ names) = concat name (concat ", " (join_names names))

-- `metadata[name]`
unfoldable pub item : Dict Scalar → String → Result Scalar
unfolding lookup
item d name = elim (lookup name d) [
  | none ↦ err (record { type_name = "KeyError"; message = name })
  | some v ↦ ok v
]

abbrev pub required_request_metadata : List String
required_request_metadata = "session_id" ∷ []

abbrev pub required_queue_metadata : List String
required_queue_metadata = "admitted_at" ∷ "expires_at" ∷ []

abbrev refuse_missing : List String → Result (Unit {0})
refuse_missing [] = ok tt
refuse_missing (name ∷ names) = err (
    value_error (
      concat "build_queue_entry_request is missing required metadata: "
        (join_names (name ∷ names))))

unfoldable pub build_queue_entry_request :
    AdmissionVerdict → RequestCapacityEstimate → Dict Scalar → Dict Scalar → Result QueueRecord
build_queue_entry_request verdict estimate request_metadata queue_metadata = do
  raise_if (not verdict.queueable)
      (value_error "build_queue_entry_request requires a queueable verdict")
  raise_if (not (estimate.request_id == verdict.request_id)) (
      value_error
        "build_queue_entry_request requires the verdict and estimate to describe the same request")
  refuse_missing (
      missing_names request_metadata required_request_metadata
      ++ missing_names queue_metadata required_queue_metadata)
  session_id ← item request_metadata "session_id"
  admitted_at ← item queue_metadata "admitted_at"
  expires_at ← item queue_metadata "expires_at"
  ok (record {
    request_id = verdict.request_id;
    session_id = session_id;
    model_name = verdict.model_name;
    required_tokens = verdict.required_tokens;
    required_dynamic_vram_bytes = verdict.required_dynamic_vram_bytes;
    admitted_at = admitted_at;
    expires_at = expires_at;
    priority = or_else (lookup "priority" queue_metadata) (Scalar.int (pos 0));
    status = or_else (lookup "status" queue_metadata) (Scalar.text "queued");
    reason_code = verdict.reason_code;
  })
