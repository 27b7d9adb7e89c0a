-- ===== src/Queue/Schedule.antt =====
-- The scheduler selects a candidate, and none of the candidates is above it.
use vvz_lmrs.Prelude.{
  ◌≡◌, ◌↔◌, refl, sym, arith, true, false, ◌&&◌, none, some, List, [], ◌∷◌, In, here, there, All,
  filter, In-filter, filter-eq-nil_iff, ap, subst, Bool-cases, inl, inr,
}
use vvz_lmrs.Prelude.Int.{ℤ}
use vvz_lmrs.Queue.{QueueEntry, key_ltb, is_candidate, largest, largest_of, largest_fit_scheduler}
use vvz_lmrs.Queue.Order.{key_ltb_irrefl, key_ltb_mono}

-- No entry of the list is above `m`.
abbrev IsTop : QueueEntry → List QueueEntry → Type 0
IsTop m = All (λ e. key_ltb m e ≡ false)

-- The running maximum never falls: what it has left behind stays not above it.
largest_up :
    (best x : QueueEntry) (es : List QueueEntry)
    → key_ltb best x ≡ true
    → largest best (x ∷ es) ≡ largest x es
unfolding largest
largest_up best x es h = rw h

largest_same :
    (best x : QueueEntry) (es : List QueueEntry)
    → key_ltb best x ≡ false
    → largest best (x ∷ es) ≡ largest best es
unfolding largest
largest_same best x es h = rw h

largest-ge :
    (best e : QueueEntry) (es : List QueueEntry)
    → key_ltb best e ≡ false
    → key_ltb (largest best es) e ≡ false
unfolding largest
largest-ge best e [] h = h
largest-ge best e (x ∷ es) h = elim (Bool-cases (key_ltb best x)) [
  | inl up ↦ rw up (largest-ge x e es (key_ltb_mono best e x up h))
  | inr same ↦ rw same (largest-ge best e es h)
]

largest-IsTop :
    (best : QueueEntry) (es : List QueueEntry)
    → (key_ltb (largest best es) best ≡ false) × IsTop (largest best es) es
largest-IsTop best [] = unfold largest in (key_ltb_irrefl best, tt)
largest-IsTop best (x ∷ es) = elim (Bool-cases (key_ltb best x)) [
  | inl up ↦
      let rest = largest-IsTop x es in
      subst (λ m. (key_ltb m best ≡ false) × IsTop m (x ∷ es)) (sym (largest_up best x es up))
        (largest-ge x best es (key_ltb_mono best best x up (key_ltb_irrefl best)), rest)
  | inr same ↦
      let rest = largest-IsTop best es in
      subst (λ m. (key_ltb m best ≡ false) × IsTop m (x ∷ es)) (sym (largest_same best x es same))
        (rest.0, (largest-ge best x es same, rest.1))
]

largest-In : (best : QueueEntry) (es : List QueueEntry) → In (largest best es) (best ∷ es)
unfolding largest
largest-In best [] = here
largest-In best (x ∷ es) = elim (Bool-cases (key_ltb best x)) [
  | inl up ↦ rw up (there (largest-In x es))
  | inr same ↦ rw same (skip (largest-In best es))
]
  where
    skip : {m : QueueEntry} → In m (best ∷ es) → In m (best ∷ x ∷ es)
    skip here = here
    skip (there i) = there (there i)

IsTop-of : (es : List QueueEntry) (m : QueueEntry) → largest_of es ≡ some m → In m es × IsTop m es
IsTop-of [] m h = cc
IsTop-of (e ∷ es) m h =
    let found : largest e es ≡ m = cc in
    subst (λ x. In x (e ∷ es) × IsTop x (e ∷ es)) found (largest-In e es, largest-IsTop e es)

none_of : (es : List QueueEntry) → largest_of es ≡ none → es ≡ []
none_of [] h = refl
none_of (e ∷ es) h = cc

module _ (usable : ℤ) where
  IsTop-of_filter :
      (m : QueueEntry) (es : List QueueEntry)
      → IsTop m (filter (is_candidate usable) es)
      → All (λ e. (is_candidate usable e && key_ltb m e) ≡ false) es
  IsTop-of_filter m [] h = tt
  IsTop-of_filter m (e ∷ es) h = ground (arith, IsTop-of_filter m es)

  -- The selected entry stands in the queue, is queued and fits, and no entry that is queued and
  -- fits has a larger key (memory, then priority, then admission time).
  pub scheduler_best :
      (es : List QueueEntry) (m : QueueEntry)
      → largest_fit_scheduler es usable ≡ some m
      → In m es
        × (is_candidate usable m ≡ true)
        × All (λ e. (is_candidate usable e && key_ltb m e) ≡ false) es
  unfolding largest_fit_scheduler
  scheduler_best es m h =
      let top = IsTop-of (filter (is_candidate usable) es) m h in
      let (i, candidate) = In-filter (is_candidate usable) es top.0 in
      (i, candidate, IsTop-of_filter m es top.1)

  -- Nothing is selected exactly when no entry is queued and fits.
  pub scheduler-none_iff :
      (es : List QueueEntry)
      → (largest_fit_scheduler es usable ≡ none) ↔ All (λ e. is_candidate usable e ≡ false) es
  unfolding largest_fit_scheduler
  scheduler-none_iff es =
      let empty = filter-eq-nil_iff (is_candidate usable) es in
      (λ h. empty.0 (none_of (filter (is_candidate usable) es) h), λ h. ap largest_of (empty.1 h))
