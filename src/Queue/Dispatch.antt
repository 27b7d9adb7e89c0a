-- ===== src/Queue/Dispatch.antt =====
-- The dispatch worker hands over at most one entry, and only one that fits both readings.
use vvz_lmrs.Prelude.{
  ◌≡◌, refl, arith, Bool, true, false, Option, none, some, List, [], ◌∷◌, ◌++◌, In, ◌⊎◌, inl, inr,
  ◌∙◌, Result, ok, err, if◌then◌else◌, ap,
}
use vvz_lmrs.Prelude.Int.{ℤ, ◌≤ℤ◌}
use vvz_lmrs.Queue.{
  QueueEntry, RequestQueue, is_candidate, largest_fit_scheduler, launch_recheck, after_executor,
  launch_read, launch, dispatch_read, dispatch,
}
use vvz_lmrs.Queue.Schedule.{scheduler_best}

-- A reading of the capacity that succeeded and leaves room for the entry.
pub record Fits (reading : Result ℤ) (m : QueueEntry) : Type 0 where
  pub bytes : ℤ
  pub is_read : reading ≡ ok bytes
  pub room : m.required_dynamic_vram_bytes ≤ℤ bytes

-- A result that names no entry; a result that names `m` or is the executor's exception.
abbrev pub NamesNone : Result (Option QueueEntry) → Type 0
NamesNone (ok (some m)) = ⊥
NamesNone _ = Unit

abbrev pub NamesAtMost : QueueEntry → Result (Option QueueEntry) → Type 0
NamesAtMost m (ok (some x)) = x ≡ m
NamesAtMost m (ok none) = ⊥
NamesAtMost m (err e) = Unit

candidate_room :
    (b : ℤ) (m : QueueEntry) → is_candidate b m ≡ true → m.required_dynamic_vram_bytes ≤ℤ b
unfolding is_candidate
candidate_room b m h = ground arith

module _ {S R : Type 0} (log : S → List QueueEntry) (capacity_provider : S → Result ℤ × S)
    (executor : QueueEntry → S → Result R × S)
    (quiet : (s : S) → log (capacity_provider s).1 ≡ log s)
    (logs : (e : QueueEntry) (s : S) → log (executor e s).1 ≡ log s ++ e ∷ []) where
  -- One entry was handed over: it is queued, and fits both readings of the capacity.
  pub record Handed (q : RequestQueue) (s : S) (out : Result (Option QueueEntry) × S)
      (m : QueueEntry) : Type 0 where
    pub is_member : In m q.entries
    pub first : Fits (capacity_provider s).0 m
    pub second : Fits (capacity_provider (capacity_provider s).1).0 m
    pub logged : log out.1 ≡ log s ++ m ∷ []
    pub named : NamesAtMost m out.0

  abbrev pub Dispatched : RequestQueue → S → Result (Option QueueEntry) × S → Type 0
  Dispatched q s out =
      ((log out.1 ≡ log s) × NamesNone out.0) ⊎ ((m : QueueEntry) × Handed q s out m)

  module _ (q : RequestQueue) (s : S) where
    abbrev s' : S
    s' = (capacity_provider s).1

    abbrev s'' : S
    s'' = (capacity_provider s').1

    finished :
        (m : QueueEntry) (r : Result R × S)
        → In m q.entries
        → Fits (capacity_provider s).0 m
        → Fits (capacity_provider s').0 m
        → log r.1 ≡ log s ++ m ∷ []
        → Dispatched q s (after_executor capacity_provider executor m r)
    unfolding after_executor
    finished m (ok a, t) i f g l =
        inr (m, record { is_member = i; first = f; second = g; logged = l; named = refl })
    finished m (err e, t) i f g l =
        inr (m, record { is_member = i; first = f; second = g; logged = l; named = tt })

    rechecked :
        (m : QueueEntry) (b : ℤ) (fits : Bool)
        → (capacity_provider s').0 ≡ ok b
        → launch_recheck m b ≡ fits
        → In m q.entries
        → Fits (capacity_provider s).0 m
        → Dispatched q s (
            if fits
            then after_executor capacity_provider executor m (executor m s'')
            else (ok none, s''))
    unfolding launch_recheck
    rechecked m b true read h i f =
        finished m (executor m s'') i f (record { bytes = b; is_read = read; room = ground arith })
          (logs m s'' ∙ ap (λ l. l ++ m ∷ []) (quiet s' ∙ quiet s))
    rechecked m b false read h i f = inl (quiet s' ∙ quiet s, tt)

    launched :
        (m : QueueEntry) (r : Result ℤ)
        → (capacity_provider s').0 ≡ r
        → In m q.entries
        → Fits (capacity_provider s).0 m
        → Dispatched q s (launch_read capacity_provider executor m (r, s''))
    unfolding launch_read
    launched m (ok b) read i f = rechecked m b (launch_recheck m b) read refl i f
    launched m (err e) read i f = inl (quiet s' ∙ quiet s, tt)

    selected :
        (b : ℤ) (o : Option QueueEntry)
        → (capacity_provider s).0 ≡ ok b
        → largest_fit_scheduler q.entries b ≡ o
        → Dispatched q s (launch capacity_provider executor o s')
    unfolding launch
    selected b none read h = inl (quiet s, tt)
    selected b (some m) read h =
        let (i, candidate, _) = scheduler_best b q.entries m h in
        launched m (capacity_provider s').0 refl i
          (record { bytes = b; is_read = read; room = candidate_room b m candidate })

    read_first :
        (r : Result ℤ)
        → (capacity_provider s).0 ≡ r
        → Dispatched q s (dispatch_read capacity_provider executor q (r, s'))
    unfolding dispatch_read
    read_first (ok b) read = selected b (largest_fit_scheduler q.entries b) read refl
    read_first (err e) read = inl (quiet s, tt)

    -- For one trigger the worker either hands nothing to the executor and returns no entry, or hands
    -- over exactly one entry of the queue that fits the capacity read at selection and the capacity
    -- read again at launch, and then returns that entry or the exception that the executor raised;
    -- provided that `log` is what was handed over, and that reading the capacity hands nothing over.
    pub dispatch_once : Dispatched q s (dispatch capacity_provider executor q s)
    unfolding dispatch
    dispatch_once = read_first (capacity_provider s).0 refl
