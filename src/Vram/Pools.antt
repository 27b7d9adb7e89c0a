-- ===== src/Vram/Pools.antt =====
-- The pools are bounded by what was measured, and exact where nothing is clamped.
use vvz_lmrs.Prelude.{◌≡◌, arith, false, some, ok, ◌↔◌}
use vvz_lmrs.Prelude.Int.{
  ℤ, pos, ◌+ℤ◌, ◌-ℤ◌, ◌≤ℤ◌, ltb_ℤ, max_ℤ, max_ℤ_bounds, max_ℤ_least, -ℤ_parts, int_laws,
}
use vvz_lmrs.Vram.{
  VramRuntimeFacts, DynamicVramState, static_vram_of, calculate_static_vram,
  calculate_max_dynamic_pool, calculate_usable_dynamic_vram,
}

static_of_ok :
    (baseline loaded : ℤ) (v : ℤ)
    → static_vram_of baseline (some loaded) ≡ ok v
    → (pos 0 ≤ℤ loaded) × (pos 0 ≤ℤ v) × (loaded +ℤ v ≡ baseline)
unfolding static_vram_of
static_of_ok baseline loaded v h = grind int_laws

ok_of_static :
    (baseline loaded v : ℤ)
    → pos 0 ≤ℤ loaded
    → pos 0 ≤ℤ v
    → loaded +ℤ v ≡ baseline
    → static_vram_of baseline (some loaded) ≡ ok v
unfolding static_vram_of
ok_of_static baseline loaded v a b e = grind int_laws

-- No reservation and no reserve of the state is negative.
pub record IsReserved (s : DynamicVramState) : Type 0 where
  pub free : pos 0 ≤ℤ s.model_loaded_free_vram_bytes
  pub margin : pos 0 ≤ℤ s.safety_margin_bytes
  pub reserve : pos 0 ≤ℤ s.runtime_reserve_bytes
  pub active : pos 0 ≤ℤ s.active_reservation_bytes

abbrev pub raw_pool : DynamicVramState → ℤ
raw_pool s = s.model_loaded_free_vram_bytes -ℤ s.safety_margin_bytes -ℤ s.runtime_reserve_bytes

abbrev pub pool_of : DynamicVramState → ℤ
pool_of s = max_ℤ (pos 0) (raw_pool s)

raw_le : (s : DynamicVramState) → IsReserved s → raw_pool s ≤ℤ s.model_loaded_free_vram_bytes
raw_le s h = omega int_laws

sub_le : (a b : ℤ) → pos 0 ≤ℤ b → a -ℤ b ≤ℤ a
sub_le a b h = omega int_laws

max_pool_lem : (s : DynamicVramState) → IsReserved s → calculate_max_dynamic_pool s ≡ ok (pool_of s)
unfolding calculate_max_dynamic_pool
max_pool_lem s h = ground arith

active_ok : (s : DynamicVramState) → IsReserved s → ltb_ℤ s.active_reservation_bytes (pos 0) ≡ false
active_ok s h = ground arith

usable_lem :
    (s : DynamicVramState)
    → IsReserved s
    → calculate_usable_dynamic_vram s ≡ ok (max_ℤ (pos 0) (pool_of s -ℤ s.active_reservation_bytes))
unfolding calculate_usable_dynamic_vram
usable_lem s h = rw (max_pool_lem s h, active_ok s h)

-- Static VRAM is computed exactly when a model-loaded reading exists, both readings are non-negative
-- and the loaded one is not above the baseline; it is then what lies between the two.
pub static_vram_iff :
    (f : VramRuntimeFacts) (loaded v : ℤ)
    → f.model_loaded_free_vram_bytes ≡ some loaded
    → (calculate_static_vram f ≡ ok v)
      ↔ ((pos 0 ≤ℤ loaded) × (pos 0 ≤ℤ v) × (loaded +ℤ v ≡ f.service_baseline_free_vram_bytes))
unfolding calculate_static_vram
static_vram_iff f loaded v is_loaded =
    let baseline = f.service_baseline_free_vram_bytes in
    rw is_loaded
      (λ h. static_of_ok baseline loaded v h, λ h. ok_of_static baseline loaded v h.0 h.1 h.2)

-- From readings and reserves that are not negative both pools are computed; what is usable lies
-- between zero and the whole pool, the pool is at most what was measured free, and what is usable
-- falls short of the pool by no more than the active reservations.
pub pools_bounded :
    (s : DynamicVramState)
    → IsReserved s
    → (pool usable : ℤ) × (calculate_max_dynamic_pool s ≡ ok pool)
      × (calculate_usable_dynamic_vram s ≡ ok usable)
      × (pos 0 ≤ℤ usable)
      × (usable ≤ℤ pool)
      × (pool ≤ℤ s.model_loaded_free_vram_bytes)
      × (pool ≤ℤ usable +ℤ s.active_reservation_bytes)
pools_bounded s h = (
  pool_of s,
  max_ℤ (pos 0) (pool_of s -ℤ s.active_reservation_bytes),
  max_pool_lem s h,
  usable_lem s h,
  (max_ℤ_bounds (pos 0) (pool_of s -ℤ s.active_reservation_bytes)).0,
  max_ℤ_least (pos 0) (pool_of s -ℤ s.active_reservation_bytes) (pool_of s)
      (max_ℤ_bounds (pos 0) (raw_pool s)).0
      (sub_le (pool_of s) s.active_reservation_bytes h.active),
  max_ℤ_least (pos 0) (raw_pool s) s.model_loaded_free_vram_bytes h.free (raw_le s h),
  omega (
    int_laws,
    (max_ℤ_bounds (pos 0) (pool_of s -ℤ s.active_reservation_bytes)).1,
    -ℤ_parts (pool_of s) s.active_reservation_bytes,
  ),
)

clamped_antitone : (p a b : ℤ) → a ≤ℤ b → max_ℤ (pos 0) (p -ℤ b) ≤ℤ max_ℤ (pos 0) (p -ℤ a)
clamped_antitone p a b h =
    max_ℤ_least (pos 0) (p -ℤ b) (max_ℤ (pos 0) (p -ℤ a)) (max_ℤ_bounds (pos 0) (p -ℤ a)).0
      (omega (int_laws, (max_ℤ_bounds (pos 0) (p -ℤ a)).1, -ℤ_parts p a, -ℤ_parts p b))

-- Reserving more on the same measurements leaves no more usable.
pub usable_antitone :
    (s : DynamicVramState) (more u v : ℤ)
    → s.active_reservation_bytes ≤ℤ more
    → calculate_usable_dynamic_vram s ≡ ok u
    → calculate_usable_dynamic_vram (record s { active_reservation_bytes = more }) ≡ ok v
    → v ≤ℤ u
unfolding calculate_usable_dynamic_vram calculate_max_dynamic_pool
usable_antitone s more u v h p q =
    ground (arith, clamped_antitone (pool_of s) s.active_reservation_bytes more)
