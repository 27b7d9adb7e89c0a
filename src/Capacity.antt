-- ===== src/Capacity.antt =====
-- lmrs/adapter/registration.py: the queue that the process holds, and the capacity that admission
-- decides against.
pub mod Holder
pub mod Payload
pub mod Bounded
use Prim.Native.Char.{code}
use vvz_lmrs.Prelude.{
  ℕ, ◌+◌, ◌-◌, ◌/◌, String, Bool, true, false, not, ◌&&◌, ◌==◌, leb, Option, none, some, or_else,
  is_some, List, [], ◌∷◌, ◌++◌, Result, ok, err, if◌then◌else◌,
}
use vvz_lmrs.Prelude.Int.{ℤ, pos, ◌+ℤ◌, ltb_ℤ}
use vvz_lmrs.Prelude.Dict.{Dict, lookup}
use vvz_lmrs.Prelude.Value.{Scalar, to_int}
use vvz_lmrs.Queue.{QueueEntry, RequestQueue, EntrySnapshot, add, cancel, snapshot}
use vvz_lmrs.Manager.State.{strip, reverse_onto}
use vvz_lmrs.Estimation.{TokenBreakdown}
use vvz_lmrs.ModelCache.{CachedModelRecord}
use vvz_lmrs.Lifecycle.{text_or}
use vvz_lmrs.Vram.Store.{GpuMemoryMeasurement, StoredFile, WriteOutcome, record_model_loaded}
use vvz_lmrs.Prelude.Value.{Value}

unfoldable pub non_negative : Result ℤ → ℤ → ℤ
non_negative (err e) default = default
non_negative (ok n) default = if ltb_ℤ n (pos 0) then default else n

-- `_int_env`, of the text that the environment holds
unfoldable pub int_env : Option String → ℤ → ℤ
unfolding to_int non_negative
int_env none default = default
int_env (some raw) default = non_negative (to_int (Scalar.text raw)) default

unfoldable pub sum_of : List QueueEntry → ℤ
sum_of [] = pos 0
sum_of (e ∷ es) = e.required_dynamic_vram_bytes +ℤ sum_of es

-- `_QueueHolder.reserved_bytes`
unfoldable pub reserved_bytes : RequestQueue → ℤ
unfolding sum_of
reserved_bytes q = sum_of q.entries

-- `_QueueHolder.cancel`: the snapshot, and the queue that is held from then on
unfoldable pub holder_cancel : String → RequestQueue → List EntrySnapshot × RequestQueue
unfolding snapshot cancel
holder_cancel request_id q = (snapshot (cancel q request_id), cancel q request_id)

-- `_QueueHolder.replace`
unfoldable pub replace : RequestQueue → RequestQueue → RequestQueue
replace queue held = queue

-- the pieces between commas; `acc` is the current one, backwards
pieces : String → String → List String
unfolding reverse_onto
pieces acc String.[] = reverse_onto acc "" ∷ []
pieces acc (String.◌∷◌ c s) =
    let next = pieces "" s in
    let longer = pieces (String.◌∷◌ c acc) s in
    if leb 44 (code c) && leb (code c) 44 then reverse_onto acc "" ∷ next else longer

stripped : List String → List String
unfolding strip
stripped [] = []
stripped (p ∷ ps) = let rest = stripped ps in if strip p == "" then rest else strip p ∷ rest

-- `_resident_services`, of `LMRS_RESIDENT_SERVICES`
unfoldable pub resident_services : Option String → List String
unfolding pieces stripped
resident_services raw = stripped (pieces "" (or_else raw ""))

-- `_model_cache_root`, of the three variables in order
unfoldable pub model_cache_root : Option String → Option String → Option String → String
model_cache_root own hub old = text_or own (text_or hub (text_or old "/var/lmrs/hf-cache"))

-- `len(text)`
unfoldable pub text_length : String → ℕ
text_length String.[] = 0
text_length (String.◌∷◌ c s) = 1 + text_length s

unfoldable pub content_length : List (Dict String) → ℕ
unfolding text_length lookup
content_length [] = 0
content_length (m ∷ ms) = text_length (or_else (lookup "content" m) "") + content_length ms

-- `-(-characters // 4)`
unfoldable pub quarter_up : ℕ → ℕ
quarter_up n = (n + 3) / 4

-- `prompt_token_breakdown`, from the runtime's count if there is one
unfoldable pub prompt_token_breakdown : Option ℤ → String → List (Dict String) → ℤ → TokenBreakdown
unfolding content_length quarter_up
prompt_token_breakdown (some counted) model_name messages reserved = record {
  input_tokens = counted;
  tool_tokens = pos 0;
  service_tokens = pos 0;
  reserved_output_tokens = reserved;
  tokenizer_name = model_name;
  tokenizer_accuracy = "runtime_tokenizer";
  rough_estimate = false;
  metadata = [];
}
prompt_token_breakdown none model_name messages reserved = record {
  input_tokens = pos (quarter_up (content_length messages));
  tool_tokens = pos 0;
  service_tokens = pos 0;
  reserved_output_tokens = reserved;
  tokenizer_name = "characters-per-four";
  tokenizer_accuracy = "rough";
  rough_estimate = true;
  metadata = [];
}

unfoldable pub profile_of : Option CachedModelRecord → String
profile_of none = ""
profile_of (some r) = r.quantization_profile

-- `record_model_load_measurement`, from the measurement and the record of the disk cache
unfoldable pub record_model_load_measurement :
    String
    → GpuMemoryMeasurement
    → Option CachedModelRecord
    → WriteOutcome
    → StoredFile
    → Dict Value × StoredFile
unfolding profile_of record_model_loaded
record_model_load_measurement model_name m found outcome file =
    if not m.is_ok
    then (
      ("measurement_error", elim m.error [ none ↦ Value.null | some e ↦ Value.text e ]) ∷ [],
      file,
    )
    else record_model_loaded model_name m "vllm" (profile_of found) outcome file
