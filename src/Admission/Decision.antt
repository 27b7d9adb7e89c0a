-- ===== src/Admission/Decision.antt =====
-- When a request is executed, queued or rejected, and how that moves with the capacity.
use vvz_lmrs.Prelude.{◌≡◌, ◌↔◌, ◌⊎◌, inl, inr, arith, refl, ap, Bool, true, Option}
use vvz_lmrs.Prelude.Int.{ℤ, ◌≤ℤ◌, ◌<ℤ◌}
use vvz_lmrs.Estimation.{RequestCapacityEstimate}
use vvz_lmrs.Admission.{
  CapacitySnapshot, Ruling, capacity_available, context_overflow, request_too_large,
  capacity_constrained, decision_of, queueable_of, rule, evaluate_lmcache_admission,
  decide_admission,
}

execute_ruling : (r : Ruling) → decision_of r ≡ "would_execute" → r ≡ capacity_available
unfolding decision_of
execute_ruling context_overflow h = cc
execute_ruling request_too_large h = cc
execute_ruling capacity_constrained h = cc
execute_ruling capacity_available h = refl

queue_ruling : (r : Ruling) → decision_of r ≡ "would_queue" → r ≡ capacity_constrained
unfolding decision_of
queue_ruling context_overflow h = cc
queue_ruling request_too_large h = cc
queue_ruling capacity_constrained h = refl
queue_ruling capacity_available h = cc

reject_ruling :
    (r : Ruling) → decision_of r ≡ "would_reject" → (r ≡ context_overflow) ⊎ (r ≡ request_too_large)
unfolding decision_of
reject_ruling context_overflow h = inl refl
reject_ruling request_too_large h = inr refl
reject_ruling capacity_constrained h = cc
reject_ruling capacity_available h = cc

module _ (e : RequestCapacityEstimate) (c : CapacitySnapshot) (r : ℤ) where
  abbrev pub Admissible : Type 0
  Admissible = (e.required_tokens ≤ℤ e.declared_context_window) × (r ≤ℤ c.max_dynamic_pool_bytes)

  available_iff :
      (rule e c r ≡ capacity_available) ↔ (Admissible × (r ≤ℤ c.usable_dynamic_vram_bytes))
  unfolding rule
  available_iff = ground arith

  constrained_iff :
      (rule e c r ≡ capacity_constrained) ↔ (Admissible × (c.usable_dynamic_vram_bytes <ℤ r))
  unfolding rule
  constrained_iff = ground arith

  refused_iff :
      ((rule e c r ≡ context_overflow) ⊎ (rule e c r ≡ request_too_large))
      ↔ ((e.declared_context_window <ℤ e.required_tokens) ⊎ (c.max_dynamic_pool_bytes <ℤ r))
  unfolding rule
  refused_iff = ground arith

reject_of :
    (r : Ruling) → (r ≡ context_overflow) ⊎ (r ≡ request_too_large) → decision_of r ≡ "would_reject"
reject_of r (inl h) = rw h (unfold decision_of in refl)
reject_of r (inr h) = rw h (unfold decision_of in refl)

-- The memory that a request is charged.
abbrev pub charge : RequestCapacityEstimate → Bool → Option ℤ → ℤ
charge e hit adjusted = evaluate_lmcache_admission hit e.required_dynamic_vram_bytes adjusted

-- A request is executed exactly when its tokens fit the context window and its memory fits both the
-- pool and what is usable now; it is queued exactly when it fits window and pool but not what is
-- usable now; it is rejected exactly when it exceeds the window or the pool.
pub decision_iff :
    (e : RequestCapacityEstimate) (c : CapacitySnapshot) (hit : Bool) (adjusted : Option ℤ)
    → let v = decide_admission e c hit adjusted in
      let r = charge e hit adjusted in
      ((v.decision ≡ "would_execute") ↔ (Admissible e c r × (r ≤ℤ c.usable_dynamic_vram_bytes)))
      × ((v.decision ≡ "would_queue") ↔ (Admissible e c r × (c.usable_dynamic_vram_bytes <ℤ r)))
      × ((v.decision ≡ "would_reject")
          ↔ ((e.declared_context_window <ℤ e.required_tokens) ⊎ (c.max_dynamic_pool_bytes <ℤ r)))
unfolding decide_admission
decision_iff e c hit adjusted =
    let r = charge e hit adjusted in
    let g = rule e c r in
    (
      (
        λ h. (available_iff e c r).0 (execute_ruling g h),
        λ h. ap decision_of ((available_iff e c r).1 h),
      ),
      (
        λ h. (constrained_iff e c r).0 (queue_ruling g h),
        λ h. ap decision_of ((constrained_iff e c r).1 h),
      ),
      (λ h. (refused_iff e c r).0 (reject_ruling g h), λ h. reject_of g ((refused_iff e c r).1 h)),
    )

queueable_ruling : (r : Ruling) → (queueable_of r ≡ true) ↔ (r ≡ capacity_constrained)
unfolding queueable_of
queueable_ruling context_overflow = ground arith
queueable_ruling _ = ground arith

-- A verdict may be queued exactly when its decision is to queue.
pub queueable_iff :
    (e : RequestCapacityEstimate) (c : CapacitySnapshot) (hit : Bool) (adjusted : Option ℤ)
    → ((decide_admission e c hit adjusted).queueable ≡ true)
      ↔ ((decide_admission e c hit adjusted).decision ≡ "would_queue")
unfolding decide_admission
queueable_iff e c hit adjusted =
    let g = rule e c (charge e hit adjusted) in
    (λ h. ap decision_of ((queueable_ruling g).0 h), λ h. (queueable_ruling g).1 (queue_ruling g h))

-- `e` asks for no more tokens and memory than `f`, against no less window and capacity.
pub record IsEasier (e f : RequestCapacityEstimate) (d c : CapacitySnapshot) (hit : Bool)
    (adjusted : Option ℤ) : Type 0 where
  pub tokens : e.required_tokens ≤ℤ f.required_tokens
  pub window : f.declared_context_window ≤ℤ e.declared_context_window
  pub bytes : charge e hit adjusted ≤ℤ charge f hit adjusted
  pub usable : c.usable_dynamic_vram_bytes ≤ℤ d.usable_dynamic_vram_bytes
  pub pool : c.max_dynamic_pool_bytes ≤ℤ d.max_dynamic_pool_bytes

module _ (e f : RequestCapacityEstimate) (d c : CapacitySnapshot) (hit : Bool) (adjusted : Option ℤ)
    (easier : IsEasier e f d c hit adjusted) where
  exceeds :
      (e.declared_context_window <ℤ e.required_tokens)
        ⊎ (d.max_dynamic_pool_bytes <ℤ charge e hit adjusted)
      → (f.declared_context_window <ℤ f.required_tokens)
        ⊎ (c.max_dynamic_pool_bytes <ℤ charge f hit adjusted)
  exceeds (inl h) = inl (omega (arith, easier))
  exceeds (inr h) = inr (omega (arith, easier))

  -- Where a request is rejected, one that asks for no less, against no more window and capacity, is
  -- rejected too.
  pub reject_mono :
      (decide_admission e d hit adjusted).decision ≡ "would_reject"
      → (decide_admission f c hit adjusted).decision ≡ "would_reject"
  reject_mono h =
      (decision_iff f c hit adjusted).2.1 (exceeds ((decision_iff e d hit adjusted).2.0 h))
