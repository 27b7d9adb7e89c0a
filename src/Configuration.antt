-- ===== src/Configuration.antt =====
-- lmrs/configuration.py: profiles of the hardware and the models, and their validation.
pub mod KvCache
pub mod Validation
use vvz_lmrs.Prelude.{ℕ, String, Option, List}
use vvz_lmrs.Prelude.Int.{ℤ, pos, ◌*ℤ◌}
use vvz_lmrs.Prelude.Dict.{Dict}

pub record HardwareProfile : Type 0 where
  pub gpu_count : ℤ
  pub total_vram_bytes : ℤ
  pub total_ram_bytes : ℤ
  pub gpu_model : Option String
  pub metadata : Dict String

pub record KvCacheProfile : Type 0 where
  pub layers : ℤ
  pub kv_heads : ℤ
  pub head_dim : ℤ
  pub kv_element_bytes : ℤ
  pub declared_context_window : ℤ
  pub runtime_kv_dtype : String
  pub quantization_profile : Option String

pub record ModelProfile : Type 0 where
  pub model_name : String
  pub runtime_backend : String
  pub model_path_or_endpoint : String
  pub declared_context_window : ℤ
  pub tokenizer_profile : String
  pub load_policy : String
  pub kv_cache_profile : KvCacheProfile
  pub concurrency_policy : Dict ℤ
  pub options : Dict String

pub record RuntimeConfiguration : Type 0 where
  pub hardware_profile : HardwareProfile
  pub model_profiles : Dict ModelProfile
  pub default_model_name : String
  pub resident_services : List String
  pub safety_margin_bytes : ℤ
  pub runtime_reserve_bytes : ℤ
  pub queue_policy : String
  pub queue_limits : Dict ℤ

unfoldable pub kv_bytes_per_token : KvCacheProfile → ℤ
kv_bytes_per_token p = p.layers *ℤ pos 2 *ℤ p.kv_heads *ℤ p.head_dim *ℤ p.kv_element_bytes

unfoldable pub kv_full_window_bytes : KvCacheProfile → ℤ
unfolding kv_bytes_per_token
kv_full_window_bytes p = p.declared_context_window *ℤ kv_bytes_per_token p
