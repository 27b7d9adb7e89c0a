-- ===== src/Configuration/Validation.antt =====
-- lmrs/configuration.py: `validate_runtime_configuration`.
use vvz_lmrs.Prelude.{
  String, Bool, true, false, not, ◌||◌, ◌==◌, ◌≡◌, refl, ◌↔◌, is_some, [], ◌∷◌, All, Result, ok,
  value_error, ◌>>◌, raise_if, arith, eq_iff, >>=-eq-ok, ok_injective, sym,
}
use vvz_lmrs.Prelude.Int.{pos, ltb_ℤ, leb_ℤ, eqb_ℤ, ◌≤ℤ◌, ◌<ℤ◌, eq_of_parts}
use vvz_lmrs.Prelude.Dict.{Dict, lookup}
use vvz_lmrs.Configuration.{ModelProfile, RuntimeConfiguration}

abbrev is_empty : Dict ModelProfile → Bool
is_empty [] = true
is_empty (m ∷ ms) = false

unfoldable pub validate_model : String → ModelProfile → Result (Unit {0})
validate_model model_name model = do
  let kv = model.kv_cache_profile
  raise_if (not (model.model_name == model_name))
      (value_error "model_profiles keys must match model_name")
  raise_if (leb_ℤ model.declared_context_window (pos 0))
      (value_error "model declared_context_window must be positive")
  raise_if (leb_ℤ kv.layers (pos 0) || leb_ℤ kv.kv_heads (pos 0) || leb_ℤ kv.head_dim (pos 0))
      (value_error "kv cache dimensions must be positive")
  raise_if (leb_ℤ kv.kv_element_bytes (pos 0)) (value_error "kv_element_bytes must be positive")
  raise_if (not (eqb_ℤ kv.declared_context_window model.declared_context_window))
      (value_error "kv profile context window must match model context window")

unfoldable pub validate_models : Dict ModelProfile → Result (Unit {0})
unfolding validate_model
validate_models [] = ok tt
validate_models ((model_name, model) ∷ rest) =
    validate_model model_name model >> validate_models rest

-- the checks on the hardware and on the figures of the configuration itself
unfoldable pub validate_facts : RuntimeConfiguration → Result (Unit {0})
unfolding lookup
validate_facts config = do
  raise_if (ltb_ℤ config.hardware_profile.gpu_count (pos 1))
      (value_error "hardware_profile.gpu_count must be at least 1")
  raise_if (leb_ℤ config.hardware_profile.total_vram_bytes (pos 0))
      (value_error "hardware_profile.total_vram_bytes must be positive")
  raise_if (leb_ℤ config.hardware_profile.total_ram_bytes (pos 0))
      (value_error "hardware_profile.total_ram_bytes must be positive")
  raise_if (is_empty config.model_profiles) (value_error "model_profiles must not be empty")
  raise_if (not (is_some (lookup config.default_model_name config.model_profiles)))
      (value_error "default_model_name must reference a configured model")
  raise_if (ltb_ℤ config.safety_margin_bytes (pos 0))
      (value_error "safety_margin_bytes must be non-negative")
  raise_if (ltb_ℤ config.runtime_reserve_bytes (pos 0))
      (value_error "runtime_reserve_bytes must be non-negative")

unfoldable pub validate_runtime_configuration : RuntimeConfiguration → Result RuntimeConfiguration
unfolding validate_facts validate_models
validate_runtime_configuration config =
    validate_facts config >> validate_models config.model_profiles >> ok config

-- A model profile under its own name, with figures that make a cost.
pub record IsSized (model_name : String) (m : ModelProfile) : Type 0 where
  pub named : m.model_name ≡ model_name
  pub window : pos 0 <ℤ m.declared_context_window
  pub layers : pos 0 <ℤ m.kv_cache_profile.layers
  pub kv_heads : pos 0 <ℤ m.kv_cache_profile.kv_heads
  pub head_dim : pos 0 <ℤ m.kv_cache_profile.head_dim
  pub element : pos 0 <ℤ m.kv_cache_profile.kv_element_bytes
  pub agreed : m.kv_cache_profile.declared_context_window ≡ m.declared_context_window

IsSized-validated :
    (name : String) (m : ModelProfile) → validate_model name m ≡ ok tt → IsSized name m
unfolding validate_model
IsSized-validated name m h = record {
  named = ground (arith, eq_iff m.model_name name);
  window = ground arith;
  layers = ground arith;
  kv_heads = ground arith;
  head_dim = ground arith;
  element = ground arith;
  agreed =
      eq_of_parts m.kv_cache_profile.declared_context_window m.declared_context_window
        (ground arith);
}

of_sized : (name : String) (m : ModelProfile) → IsSized name m → validate_model name m ≡ ok tt
unfolding validate_model
of_sized name m h = ground (arith, eq_iff m.model_name name)

-- What a configuration must satisfy.
pub record IsValid (c : RuntimeConfiguration) : Type 0 where
  pub gpus : pos 1 ≤ℤ c.hardware_profile.gpu_count
  pub vram : pos 0 <ℤ c.hardware_profile.total_vram_bytes
  pub ram : pos 0 <ℤ c.hardware_profile.total_ram_bytes
  pub default_known : is_some (lookup c.default_model_name c.model_profiles) ≡ true
  pub margin : pos 0 ≤ℤ c.safety_margin_bytes
  pub reserve : pos 0 ≤ℤ c.runtime_reserve_bytes
  pub models : All (λ (name, m). IsSized name m) c.model_profiles

IsSized-every :
    (ms : Dict ModelProfile) → validate_models ms ≡ ok tt → All (λ (name, m). IsSized name m) ms
unfolding validate_models
IsSized-every [] h = tt
IsSized-every ((name, m) ∷ ms) h =
    let (u, first, rest) = >>=-eq-ok (validate_model name m) (λ _. validate_models ms) h in
    (IsSized-validated name m first, IsSized-every ms rest)

models_sized :
    (ms : Dict ModelProfile) → All (λ (name, m). IsSized name m) ms → validate_models ms ≡ ok tt
unfolding validate_models
models_sized [] h = refl
models_sized ((name, m) ∷ ms) h = rw (of_sized name m h.0) (models_sized ms h.1)

facts_of :
    (c : RuntimeConfiguration)
    → validate_facts c ≡ ok tt
    → (pos 1 ≤ℤ c.hardware_profile.gpu_count)
      × (pos 0 <ℤ c.hardware_profile.total_vram_bytes)
      × (pos 0 <ℤ c.hardware_profile.total_ram_bytes)
      × (is_some (lookup c.default_model_name c.model_profiles) ≡ true)
      × (pos 0 ≤ℤ c.safety_margin_bytes)
      × (pos 0 ≤ℤ c.runtime_reserve_bytes)
unfolding validate_facts
facts_of c h = (ground arith, ground arith, ground arith, ground arith, ground arith, ground arith)

not_empty :
    (name : String) (ms : Dict ModelProfile) → is_some (lookup name ms) ≡ true → is_empty ms ≡ false
unfolding lookup
not_empty name [] h = cc
not_empty name (m ∷ ms) h = refl

of_facts : (c : RuntimeConfiguration) → IsValid c → validate_facts c ≡ ok tt
unfolding validate_facts
of_facts c h =
    ground (arith, h.default_known, not_empty c.default_model_name c.model_profiles h.default_known)

-- A configuration is returned, and as it was given, exactly when its hardware has a GPU and positive
-- memories, its reserves are not negative, its default model is configured, and every model stands
-- under its own name with positive figures and one context window.
pub validate_iff :
    (c given : RuntimeConfiguration)
    → (validate_runtime_configuration c ≡ ok given) ↔ (IsValid c × (given ≡ c))
unfolding validate_runtime_configuration
validate_iff c given = (
  λ h.
      let (u, checked, returned) =
        >>=-eq-ok (validate_facts c >> validate_models c.model_profiles) (λ _. ok c) h in
      let (v, facts, models) =
        >>=-eq-ok (validate_facts c) (λ _. validate_models c.model_profiles) checked in
      let (gpus, vram, ram, known, margin, reserve) = facts_of c facts in
      (
        record {
          gpus = gpus;
          vram = vram;
          ram = ram;
          default_known = known;
          margin = margin;
          reserve = reserve;
          models = IsSized-every c.model_profiles models;
        },
        sym (ok_injective returned),
      ),
  λ (valid, same). rw (of_facts c valid, models_sized c.model_profiles valid.models, same) refl,
)
