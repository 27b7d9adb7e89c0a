-- ===== src/Vram/Store.antt =====
-- `VramFactsStore`: the measurements that are kept on disk across restarts.
pub mod Honest
pub mod History
use vvz_lmrs.Prelude.{
  String, Bool, true, false, not, ◌&&◌, ◌==◌, Option, none, some, List, [], ◌∷◌, if◌then◌else◌,
}
use vvz_lmrs.Prelude.Int.{ℤ, pos, negsuc, ◌-ℤ◌, leb_ℤ, eqb_ℤ}
use vvz_lmrs.Prelude.Dict.{Dict, lookup, insert, erase}
use vvz_lmrs.Prelude.Value.{Value, Items, Fields}

pub record GpuMemoryMeasurement : Type 0 where
  pub is_ok : Bool
  pub total_bytes : ℤ
  pub free_bytes : ℤ
  pub used_bytes : ℤ
  pub devices : List (Dict ℤ)
  pub measured_at : String
  pub source : String
  pub error : Option String

-- What stands at the store's path. A document is read key by key, so the order of its keys, which
-- `sort_keys` changes on the way to disk, is not modelled.
pub data StoredFile : Type 0 where
  missing : StoredFile
  unreadable : StoredFile
  document : Dict Value → StoredFile

-- How the operating system answers a write: it may refuse it, or fail when the old text is gone.
pub data WriteOutcome : Type 0 where
  written : WriteOutcome
  refused torn : String → WriteOutcome

unfoldable pub read : StoredFile → Dict Value
read missing = []
read unreadable = []
read (document facts) = facts

-- `_write`: the returned mapping, and the file that it leaves
unfoldable pub write : WriteOutcome → Dict Value → StoredFile → Dict Value × StoredFile
write written facts file = (facts, document facts)
write (refused error) facts file = (insert "write_error" (Value.text error) facts, file)
write (torn error) facts file = (insert "write_error" (Value.text error) facts, unreadable)

-- `isinstance(value, int)`, which is true of a bool too, and the integer
unfoldable pub as_int : Option Value → Option ℤ
as_int (some (Value.int n)) = some n
as_int (some (Value.bool true)) = some (pos 1)
as_int (some (Value.bool false)) = some (pos 0)
as_int _ = none

-- `value is False`
unfoldable pub is_false : Option Value → Bool
is_false (some (Value.bool false)) = true
is_false _ = false

-- the truth of `facts.get(key)`
unfoldable pub is_truthy : Option Value → Bool
is_truthy (some (Value.bool b)) = b
is_truthy (some (Value.int n)) = not (eqb_ℤ n (pos 0))
is_truthy (some (Value.text s)) = not (s == "")
is_truthy (some (Value.list (Items.cons _ _))) = true
is_truthy (some (Value.dict (Fields.field _ _ _))) = true
is_truthy _ = false

unfoldable pub names : List String → Items
names [] = Items.nil
names (s ∷ ss) = Items.cons (Value.text s) (names ss)

-- the mapping of `record_service_baseline` once its `update` is done
unfoldable pub baseline_facts : GpuMemoryMeasurement → List String → Bool → Dict Value → Dict Value
baseline_facts m services served facts = insert "baseline_model_served" (Value.bool served) (
    insert "baseline_measured_at" (Value.text m.measured_at) (
      insert "resident_services" (Value.list (names services)) (
        insert "total_vram_bytes" (Value.int m.total_bytes)
          (insert "service_baseline_free_vram_bytes" (Value.int m.free_bytes) facts))))

unfoldable pub record_service_baseline :
    GpuMemoryMeasurement → List String → Bool → WriteOutcome → StoredFile → Dict Value × StoredFile
unfolding baseline_facts names
record_service_baseline m services served outcome file =
    let facts = read file in
    if not m.is_ok
    then (facts, file)
    else if served && is_false (lookup "baseline_model_served" facts)
    then (facts, file)
    else write outcome (baseline_facts m services served facts) file

-- the mapping of `record_model_loaded` after its `update`
unfoldable pub loaded_facts :
    String → GpuMemoryMeasurement → String → String → Dict Value → Dict Value
loaded_facts model m backend quantization facts =
    insert "quantization_profile" (Value.text quantization) (
      insert "runtime_backend" (Value.text backend) (
        insert "model_loaded_measured_at" (Value.text m.measured_at) (
          insert "model_loaded_free_vram_bytes" (Value.int m.free_bytes)
            (insert "model_name" (Value.text model) facts))))

-- without a static figure, and with the reason why there is none
without_static : String → Dict Value → Dict Value
without_static reason facts =
    insert "static_vram_unavailable_reason" (Value.text reason)
      (erase "measured_model_static_vram_bytes" facts)

static_by_baseline : ℤ → Option ℤ → Dict Value → Dict Value
unfolding without_static
static_by_baseline free none facts =
    without_static "no service baseline below the model-loaded reading" facts
static_by_baseline free (some baseline) facts =
    if leb_ℤ free baseline
    then erase "static_vram_unavailable_reason"
        (insert "measured_model_static_vram_bytes" (Value.int (baseline -ℤ free)) facts)
    else without_static "no service baseline below the model-loaded reading" facts

-- the static figure, or the reason for its absence
unfoldable pub static_facts : ℤ → Dict Value → Dict Value
unfolding static_by_baseline
static_facts free facts =
    if is_truthy (lookup "baseline_model_served" facts)
    then without_static "the stored baseline was measured while a model was already served" facts
    else static_by_baseline free (as_int (lookup "service_baseline_free_vram_bytes" facts)) facts

unfoldable pub record_model_loaded :
    String
    → GpuMemoryMeasurement
    → String
    → String
    → WriteOutcome
    → StoredFile
    → Dict Value × StoredFile
unfolding static_facts loaded_facts
record_model_loaded model m backend quantization outcome file =
    let facts = read file in
    if not m.is_ok
    then (facts, file)
    else write outcome (static_facts m.free_bytes (loaded_facts model m backend quantization facts))
        file
