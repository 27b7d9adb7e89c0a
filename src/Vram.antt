-- ===== src/Vram.antt =====
-- lmrs/vram.py: measured VRAM facts and the pools derived from them.
pub mod Pools
pub mod Store
use vvz_lmrs.Prelude.{
  String, Bool, ◌||◌, Option, none, some, List, Result, ok, err, value_error, ◌>>=◌, ◌>>◌, raise_if,
}
use vvz_lmrs.Prelude.Int.{ℤ, pos, ◌-ℤ◌, ltb_ℤ, max_ℤ}
use vvz_lmrs.Prelude.Dict.{Dict}

pub record VramRuntimeFacts : Type 0 where
  pub resident_services : List String
  pub service_baseline_free_vram_bytes : ℤ
  pub model_loaded_free_vram_bytes : Option ℤ
  pub model_name : Option String
  pub runtime_backend : Option String
  pub quantization_profile : Option String
  pub hardware_profile_id : Option String
  pub measurement_metadata : Dict String

pub record DynamicVramState : Type 0 where
  pub model_loaded_free_vram_bytes : ℤ
  pub safety_margin_bytes : ℤ
  pub runtime_reserve_bytes : ℤ
  pub active_reservation_bytes : ℤ

-- the tests of `calculate_static_vram` on the two readings
static_vram_of : ℤ → Option ℤ → Result ℤ
static_vram_of baseline none = err (value_error "model_loaded_free_vram_bytes is required")
static_vram_of baseline (some loaded) = do
  raise_if (ltb_ℤ baseline (pos 0) || ltb_ℤ loaded (pos 0))
      (value_error "VRAM measurements must be non-negative")
  raise_if (ltb_ℤ baseline loaded)
      (value_error "model-loaded free VRAM cannot exceed service baseline free VRAM")
  ok (baseline -ℤ loaded)

unfoldable pub calculate_static_vram : VramRuntimeFacts → Result ℤ
unfolding static_vram_of
calculate_static_vram facts =
    static_vram_of facts.service_baseline_free_vram_bytes facts.model_loaded_free_vram_bytes

unfoldable pub calculate_max_dynamic_pool : DynamicVramState → Result ℤ
calculate_max_dynamic_pool state = do
  raise_if (ltb_ℤ state.model_loaded_free_vram_bytes (pos 0))
      (value_error "model_loaded_free_vram_bytes must be non-negative")
  raise_if (ltb_ℤ state.safety_margin_bytes (pos 0) || ltb_ℤ state.runtime_reserve_bytes (pos 0))
      (value_error "VRAM reserves must be non-negative")
  ok (
      max_ℤ (pos 0) (
        state.model_loaded_free_vram_bytes -ℤ state.safety_margin_bytes
        -ℤ state.runtime_reserve_bytes))

unfoldable pub calculate_usable_dynamic_vram : DynamicVramState → Result ℤ
calculate_usable_dynamic_vram state = do
  raise_if (ltb_ℤ state.active_reservation_bytes (pos 0))
      (value_error "active_reservation_bytes must be non-negative")
  pool ← calculate_max_dynamic_pool state
  ok (max_ℤ (pos 0) (pool -ℤ state.active_reservation_bytes))
