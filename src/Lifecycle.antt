-- ===== src/Lifecycle.antt =====
-- lmrs/model_lifecycle.py: which model is resident, and the commands that change it.
pub mod Memory
pub mod Unload
pub mod Switch
pub mod Residency
pub mod Reports
pub mod Switching
pub mod Blocked
pub mod Kept
pub mod KeptSwitch
pub mod Flags
use vvz_lmrs.Prelude.{
  String, Bool, true, false, Option, none, some, ◌==◌, List, [], ◌∷◌, Result, ok, err, value_error,
  ◌>>=◌, ◌>>◌, raise_if, Exception,
}
use vvz_lmrs.Prelude.Int.{ℤ, pos, ◌-ℤ◌, ltb_ℤ}
use vvz_lmrs.Prelude.Dict.{Dict}
use vvz_lmrs.Prelude.Value.{Value, Items, Fields}

pub record ModelResidency : Type 0 where
  pub model_name : String
  pub runtime_backend : String
  pub state : String
  pub keep_loaded : Bool
  pub measured_model_static_vram_bytes : Option ℤ
  pub model_loaded_free_vram_bytes : Option ℤ
  pub loaded_at : Option String
  pub metadata : Dict Value

pub record LifecycleCommandResult : Type 0 where
  pub command : String
  pub model_name : String
  pub state : String
  pub success : Bool
  pub reason_code : Option String
  pub measured_model_static_vram_bytes : Option ℤ
  pub model_loaded_free_vram_bytes : Option ℤ
  pub metadata : Dict Value

-- The fields of `ModelMemoryLifecycle` that are data; its collaborators are parameters.
pub record ModelMemoryLifecycle : Type 0 where
  pub current_residency : Option ModelResidency
  pub runtime_backend : String

unfoldable pub measure_model_static_vram : ℤ → ℤ → Result ℤ
measure_model_static_vram baseline loaded = do
  raise_if (ltb_ℤ baseline (pos 0))
      (value_error "service_baseline_free_vram_bytes must be non-negative")
  raise_if (ltb_ℤ loaded (pos 0)) (value_error "model_loaded_free_vram_bytes must be non-negative")
  raise_if (ltb_ℤ (baseline -ℤ loaded) (pos 0))
      (value_error "measured model static VRAM must not be negative")
  ok (baseline -ℤ loaded)

-- What the commands read of the answers of the runtime probe and of the disk cache.
pub record ProbeResult : Type 0 where
  pub is_ok : Bool
  pub served_models : List String
  pub metadata : Option (Dict Value)
  pub error : Option String

pub record CacheStatus : Type 0 where
  pub status : Option String
  pub reason_code : Option String

pub record PreloadResult : Type 0 where
  pub success : Bool
  pub reason_code : Option String

-- The disk cache, whose calls read and change the world `S` and may raise.
pub record DiskCache (S : Type 0) : Type 0 where
  pub status : String → S → Result CacheStatus × S
  pub preload : String → S → Result PreloadResult × S

-- How a step of a method ends: by an exception, by an early `return`, or with a value.
pub data Step (X A : Type 0) : Type 0 where
  raised : Exception → Step X A
  returned : X → Step X A
  value : A → Step X A

infixl 5 ◌then◌
abbrev pub ◌then◌ : {S X A B : Type 0} → Step X A × S → (A → S → Step X B × S) → Step X B × S
(raised e, s) then k = (raised e, s)
(returned x, s) then k = (returned x, s)
(value a, s) then k = k a s

-- `text or default`
abbrev pub text_or : Option String → String → String
text_or none default = default
text_or (some String.[]) default = default
text_or (some (String.◌∷◌ c s)) default = String.◌∷◌ c s

abbrev pub text_or_null : Option String → Value
text_or_null none = Value.null
text_or_null (some s) = Value.text s

-- `list(served_models)`
unfoldable pub texts : List String → Items
texts [] = Items.nil
texts (s ∷ ss) = Items.cons (Value.text s) (texts ss)

-- `dict(facts)`
unfoldable pub fields : Dict Value → Fields
fields [] = Fields.end
fields ((k, v) ∷ d) = Fields.field k v (fields d)

-- `status == CacheState.CACHED_ON_DISK`
abbrev pub is_cached : Option String → Bool
is_cached none = false
is_cached (some status) = status == "cached_on_disk"
