-- ===== src/Configuration/KvCache.antt =====
-- lmrs/configuration.py: the KV-cache profile that a model's own `config.json` states.
use vvz_lmrs.Prelude.{
  ℕ, String, true, not, ◌&&◌, ◌==◌, ◌≡◌, refl, if_case, All, arith, Option, none, some, or_else,
  List, [], ◌∷◌, if◌then◌else◌,
}
use vvz_lmrs.Prelude.Int.{ℤ, pos, ltb_ℤ, leb_ℤ, ◌//ℤ◌}
use vvz_lmrs.Prelude.Dict.{Dict, lookup}
use vvz_lmrs.Prelude.Value.{Value, Fields}
use vvz_lmrs.Vram.Store.{as_int, is_truthy}
use vvz_lmrs.Commands.{has_prefix, drop_chars}
use vvz_lmrs.Manager.State.{strip}
use vvz_lmrs.Manager.Probe.{get}
use vvz_lmrs.ModelCache.Snapshots.{truthy_or}
use vvz_lmrs.Configuration.{KvCacheProfile}

abbrev dtype_element_bytes : Dict ℤ
dtype_element_bytes =
    ("float32", pos 4)
    ∷ ("float", pos 4)
    ∷ ("fp32", pos 4)
    ∷ ("float16", pos 2)
    ∷ ("half", pos 2)
    ∷ ("fp16", pos 2)
    ∷ ("bfloat16", pos 2)
    ∷ ("bf16", pos 2)
    ∷ ("float8", pos 1)
    ∷ ("fp8", pos 1)
    ∷ ("fp8_e4m3", pos 1)
    ∷ ("fp8_e5m2", pos 1)
    ∷ ("float8_e4m3fn", pos 1)
    ∷ ("float8_e5m2", pos 1)
    ∷ ("int8", pos 1)
    ∷ []

-- `text.removeprefix(prefix)`, for a prefix of `n` characters
unfoldable pub without_prefix : String → ℕ → String → String
unfolding has_prefix drop_chars
without_prefix prefix n s = if has_prefix prefix s then drop_chars n s else s

abbrev PositiveIn : Option ℤ → Type 0
PositiveIn none = Unit
PositiveIn (some n) = ltb_ℤ (pos 0) n ≡ true

PositiveIn-if : (n : ℤ) → PositiveIn (if ltb_ℤ (pos 0) n then some n else none)
PositiveIn-if n = if_case PositiveIn (ltb_ℤ (pos 0) n) (λ e. e) (λ _. tt)

looked_up :
    (k : String) (d : Dict ℤ)
    → All (λ (_, n). ltb_ℤ (pos 0) n ≡ true) d
    → ltb_ℤ (pos 0) (or_else (lookup k d) (pos 2)) ≡ true
unfolding lookup
looked_up k [] h = refl
looked_up k ((j, n) ∷ d) h =
    if_case (λ o. ltb_ℤ (pos 0) (or_else o (pos 2)) ≡ true) (j == k) (λ _. h.0)
      (λ _. looked_up k d h.1)

module _ (lower : String → String) (show : Value → String) where
  unfoldable pub kv_element_bytes_for_dtype : String → ℤ
  unfolding without_prefix strip lookup
  kv_element_bytes_for_dtype dtype_name =
      or_else (lookup (without_prefix "torch." 6 (lower (strip dtype_name))) dtype_element_bytes)
        (pos 2)

  -- `{**model_config, **text_config}`: a key of the second hides the first's
  unfoldable pub merged_get : Fields → Option Value → String → Option Value
  unfolding get
  merged_get config (some (Value.dict extra)) k = elim (get k extra) [
    | none ↦ get k config
    | some v ↦ some v
  ]
  merged_get config _ k = get k config

  -- `isinstance(value, int) and value > 0`
  unfoldable pub positive_int : Option Value → Option ℤ
  unfolding as_int
  positive_int v = elim (as_int v) [
    | none ↦ none
    | some n ↦ if ltb_ℤ (pos 0) n then some n else none
  ]

  unfoldable pub split_heads : Option ℤ → Option ℤ → ℤ
  split_heads (some hidden) (some heads) = hidden //ℤ heads
  split_heads _ _ = pos 0

  -- the stated dimension, or the hidden size by the heads
  unfoldable pub head_dim_of : Option Value → Option Value → Option Value → ℤ
  unfolding positive_int as_int split_heads
  head_dim_of head_dim hidden_size attention_heads =
      or_else (positive_int head_dim)
        (split_heads (as_int hidden_size) (positive_int attention_heads))

  unfoldable pub or_bfloat16 : Option Value → String
  or_bfloat16 none = "bfloat16"
  or_bfloat16 (some v) = if is_truthy (some v) then show v else "bfloat16"

  -- the dtype that the runtime was told to keep the cache in, or the model's
  unfoldable pub requested_dtype : Option String → String → String
  requested_dtype none model_dtype = model_dtype
  requested_dtype (some dtype) model_dtype =
      if not (dtype == "") && not (lower dtype == "auto") then dtype else model_dtype

  unfoldable pub quant_method_of : Option Value → Option String
  unfolding get
  quant_method_of (some (Value.dict d)) = some (show (or_else (get "quant_method" d) Value.null))
  quant_method_of _ = none

  -- the tests on the parameters, and the profile when all of them are stated
  unfoldable pub stated_profile :
      Option ℤ → Option ℤ → ℤ → ℤ → String → Option String → Option KvCacheProfile
  unfolding kv_element_bytes_for_dtype
  stated_profile (some layers) (some kv_heads) head_dim context_window dtype quantization =
      if leb_ℤ head_dim (pos 0)
      then none
      else if leb_ℤ context_window (pos 0)
      then none
      else some (record {
        layers = layers;
        kv_heads = kv_heads;
        head_dim = head_dim;
        kv_element_bytes = kv_element_bytes_for_dtype dtype;
        declared_context_window = context_window;
        runtime_kv_dtype = dtype;
        quantization_profile = quantization;
      })
  stated_profile _ _ _ _ _ _ = none

  unfoldable pub window_in : List String → (String → Option Value) → ℤ
  unfolding positive_int
  window_in [] merged = pos 0
  window_in (k ∷ ks) merged = or_else (positive_int (merged k)) (window_in ks merged)

  unfoldable pub layers_of : (String → Option Value) → Option ℤ
  unfolding positive_int truthy_or
  layers_of merged = positive_int (truthy_or (merged "num_hidden_layers") (merged "n_layer"))

  unfoldable pub attention_heads_of : (String → Option Value) → Option Value
  unfolding truthy_or
  attention_heads_of merged = truthy_or (merged "num_attention_heads") (merged "n_head")

  unfoldable pub kv_heads_of : (String → Option Value) → Option ℤ
  unfolding positive_int truthy_or attention_heads_of
  kv_heads_of merged =
      positive_int (truthy_or (merged "num_key_value_heads") (attention_heads_of merged))

  unfoldable pub dim_of : (String → Option Value) → ℤ
  unfolding head_dim_of truthy_or attention_heads_of
  dim_of merged =
      head_dim_of (merged "head_dim") (truthy_or (merged "hidden_size") (merged "n_embd"))
        (attention_heads_of merged)

  unfoldable pub window_keys : List String
  window_keys =
      "max_position_embeddings" ∷ "max_sequence_length" ∷ "n_positions" ∷ "model_max_length" ∷ []

  unfoldable pub dtype_of : Option String → (String → Option Value) → String
  unfolding requested_dtype or_bfloat16 truthy_or
  dtype_of kv_cache_dtype merged =
      requested_dtype kv_cache_dtype
        (or_bfloat16 (truthy_or (merged "torch_dtype") (merged "dtype")))

  unfoldable pub profile_of : (String → Option Value) → Option String → Option KvCacheProfile
  unfolding layers_of kv_heads_of dim_of window_in window_keys dtype_of quant_method_of
      stated_profile
  profile_of merged kv_cache_dtype =
      stated_profile (layers_of merged) (kv_heads_of merged) (dim_of merged)
        (window_in window_keys merged) (dtype_of kv_cache_dtype merged)
        (quant_method_of (merged "quantization_config"))

  unfoldable pub derive_kv_cache_profile : Fields → Option String → Option KvCacheProfile
  unfolding merged_get get profile_of
  derive_kv_cache_profile config kv_cache_dtype =
      profile_of (merged_get config (get "text_config" config)) kv_cache_dtype

  -- The five factors of the cost are positive.
  abbrev pub IsSizing : Option KvCacheProfile → Type 0
  IsSizing none = Unit
  IsSizing (some p) =
      (ltb_ℤ (pos 0) p.layers ≡ true)
      × (ltb_ℤ (pos 0) p.kv_heads ≡ true)
      × (ltb_ℤ (pos 0) p.head_dim ≡ true)
      × (ltb_ℤ (pos 0) p.kv_element_bytes ≡ true)
      × (ltb_ℤ (pos 0) p.declared_context_window ≡ true)

  positive_int-PositiveIn : (v : Option Value) → PositiveIn (positive_int v)
  unfolding positive_int
  positive_int-PositiveIn v = read (as_int v)
    where
      read :
          (o : Option ℤ)
          → PositiveIn (elim o [ none ↦ none | some n ↦ if ltb_ℤ (pos 0) n then some n else none ])
      read none = tt
      read (some n) = PositiveIn-if n

  dtype_positive : (name : String) → ltb_ℤ (pos 0) (kv_element_bytes_for_dtype name) ≡ true
  unfolding kv_element_bytes_for_dtype
  dtype_positive name =
      looked_up (without_prefix "torch." 6 (lower (strip name))) dtype_element_bytes (
        refl,
        (
          refl,
          (
            refl,
            (
              refl,
              (
                refl,
                (refl, (refl, (refl, (refl, (refl, (refl, (refl, (refl, (refl, (refl, tt)))))))))),
              ),
            ),
          ),
        ),
      )

  stated_profile-IsSizing :
      (layers kv_heads : Option ℤ) (head_dim window : ℤ) (dtype : String)
      (quantization : Option String)
      → PositiveIn layers
      → PositiveIn kv_heads
      → IsSizing (stated_profile layers kv_heads head_dim window dtype quantization)
  unfolding stated_profile
  stated_profile-IsSizing (some l) (some k) head_dim window dtype quantization lp kp =
      if_case IsSizing (leb_ℤ head_dim (pos 0)) (λ _. tt)
        (λ hp.
          if_case IsSizing (leb_ℤ window (pos 0)) (λ _. tt)
            (λ wp. (lp, kp, ground arith, dtype_positive dtype, ground arith)))
  stated_profile-IsSizing (some l) none head_dim window dtype quantization lp kp = tt
  stated_profile-IsSizing none kv_heads head_dim window dtype quantization lp kp = tt

  sizing :
      (merged : String → Option Value) (kv_cache_dtype : Option String)
      → IsSizing (profile_of merged kv_cache_dtype)
  unfolding profile_of layers_of kv_heads_of
  sizing merged kv_cache_dtype =
      stated_profile-IsSizing (layers_of merged) (kv_heads_of merged) (dim_of merged)
        (window_in window_keys merged) (dtype_of kv_cache_dtype merged)
        (quant_method_of (merged "quantization_config"))
        (positive_int-PositiveIn (truthy_or (merged "num_hidden_layers") (merged "n_layer")))
        (positive_int-PositiveIn
          (truthy_or (merged "num_key_value_heads") (attention_heads_of merged)))

  -- The profile derived from a model's configuration, whatever the document holds, has positive
  -- layers, heads, head dimension, element size and context window.
  pub derive-IsSizing :
      (config : Fields) (kv_cache_dtype : Option String)
      → IsSizing (derive_kv_cache_profile config kv_cache_dtype)
  unfolding derive_kv_cache_profile
  derive-IsSizing config kv_cache_dtype =
      sizing (merged_get config (get "text_config" config)) kv_cache_dtype
