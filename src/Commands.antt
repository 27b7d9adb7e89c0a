-- ===== src/Commands.antt =====
-- lmrs/commands.py: the outcomes of the public commands, and the handler of estimate and chat.
pub mod Contract
pub mod Handler
pub mod Paths
pub mod Queued
pub mod Agreement
pub mod Launchable
use Prim.Native.Char.{code}
use Prim.Native.Nat.{compare, Ordering}
use vvz_lmrs.Prelude.{
  ℕ, zero, suc, String, Bool, true, false, not, ◌&&◌, ◌||◌, ◌==◌, Option, none, some, List, [], ◌∷◌,
  Result, ok, err, value_error, ◌>>=◌, ◌>>◌, raise_if, if◌then◌else◌,
}
use vvz_lmrs.Prelude.Dict.{Dict}
use vvz_lmrs.Prelude.Value.{Value, Scalar, to_text, to_int}
use vvz_lmrs.Estimation.{TokenBreakdown}
use vvz_lmrs.Admission.{CapacitySnapshot, QueueRecord}
use vvz_lmrs.Queue.{QueueEntry, EntrySnapshot}
use Prim.Native.String.{◌++◌ as concat}

-- lmrs/runtime_client.py: what `execute` returns for a call that failed
pub record RuntimeFailureSignal : Type 0 where
  pub request_id : String
  pub backend : String
  pub reason_code : String
  pub message : String
  pub retriable : Bool
  pub metadata : Dict Value

-- What `RuntimeClient.execute` returns, `R` being the type of a normalized result.
pub data RuntimeReply (R : Type 0) : Type 0 where
  failed : RuntimeFailureSignal → RuntimeReply R
  normalized : R → RuntimeReply R

-- The payloads that the handler gives a result.
pub data Payload (R : Type 0) : Type 0 where
  nothing : Payload R
  record_of : QueueRecord → Payload R
  failure : RuntimeFailureSignal → Payload R
  reply : R → Payload R

pub record CommandResult (R : Type 0) : Type 0 where
  pub command : String
  pub outcome : String
  pub success : Bool
  pub reason_code : Option String
  pub token_breakdown : Option TokenBreakdown
  pub capacity_snapshot : Option CapacitySnapshot
  pub queue_state : Option (List EntrySnapshot)
  pub payload : Payload R
  pub metadata : Dict Value

-- `text.startswith(prefix)`
unfoldable pub has_prefix : String → String → Bool
has_prefix String.[] s = true
has_prefix (String.◌∷◌ c p) String.[] = false
has_prefix (String.◌∷◌ c p) (String.◌∷◌ d s) = elim (compare (code c) (code d)) [
  | Ordering.eq ↦ has_prefix p s
  | _ ↦ false
]

-- `text[n:]`
unfoldable pub drop_chars : ℕ → String → String
drop_chars zero s = s
drop_chars (suc n) String.[] = String.[]
drop_chars (suc n) (String.◌∷◌ c s) = drop_chars n s

unfoldable pub canonical_decision : String → Result String
unfolding has_prefix drop_chars
canonical_decision decision =
    let canonical = if has_prefix "would_" decision then drop_chars 6 decision else decision in
    if canonical == "execute" || canonical == "queue" || canonical == "reject"
    then ok canonical
    else err (value_error (concat "unknown admission decision: " decision))

-- `_DRY_RUN_OUTCOMES[canonical]`
unfoldable pub dry_run_table : String → String
dry_run_table canonical =
    if canonical == "execute"
    then "would_execute"
    else if canonical == "queue"
    then "would_queue"
    else "would_reject"

-- `_EXECUTION_OUTCOMES[canonical]`
unfoldable pub execution_table : String → String
execution_table canonical =
    if canonical == "execute"
    then "executed"
    else if canonical == "queue"
    then "queued"
    else "rejected"

unfoldable pub dry_run_outcome : String → Result String
unfolding canonical_decision dry_run_table
dry_run_outcome decision = do canonical ← canonical_decision decision; ok (dry_run_table canonical)

unfoldable pub execution_outcome : String → Result String
unfolding canonical_decision execution_table
execution_outcome decision = do
  canonical ← canonical_decision decision
  ok (execution_table canonical)

-- The optional artifacts of `estimate_result` and `chat_result`.
pub record Artifacts (R : Type 0) : Type 0 where
  pub reason_code : Option String
  pub token_breakdown : Option TokenBreakdown
  pub capacity_snapshot : Option CapacitySnapshot
  pub queue_state : Option (List EntrySnapshot)
  pub payload : Payload R

module _ {R : Type 0} where
  -- A result of a command with an outcome, its artifacts and no further metadata.
  abbrev pub result_of : String → String → Bool → Artifacts R → CommandResult R
  result_of command outcome success a = record {
    command = command;
    outcome = outcome;
    success = success;
    reason_code = a.reason_code;
    token_breakdown = a.token_breakdown;
    capacity_snapshot = a.capacity_snapshot;
    queue_state = a.queue_state;
    payload = a.payload;
    metadata = [];
  }

  unfoldable pub estimate_result : String → Artifacts R → Result (CommandResult R)
  estimate_result decision a = do
    outcome ← dry_run_outcome decision
    ok (result_of "estimate" outcome (not (outcome == "would_reject")) a)

  unfoldable pub chat_result : String → Artifacts R → Result (CommandResult R)
  chat_result decision a = do
    outcome ← execution_outcome decision
    ok (result_of "chat" outcome (not (outcome == "rejected")) a)

  unfoldable pub failure_result : String → String → Payload R → Dict Value → CommandResult R
  failure_result command reason_code payload metadata = record {
    command = command;
    outcome = "rejected";
    success = false;
    reason_code = some reason_code;
    token_breakdown = none;
    capacity_snapshot = none;
    queue_state = none;
    payload = payload;
    metadata = metadata;
  }

unfoldable pub queue_entry_from_record : QueueRecord → Result QueueEntry
queue_entry_from_record r = do
  priority ← to_int r.priority
  ok (record {
    request_id = r.request_id;
    session_id = to_text r.session_id;
    model_name = r.model_name;
    required_tokens = r.required_tokens;
    required_dynamic_vram_bytes = r.required_dynamic_vram_bytes;
    admitted_at = to_text r.admitted_at;
    expires_at = to_text r.expires_at;
    priority = priority;
    status = to_text r.status;
    metadata = [];
  })
