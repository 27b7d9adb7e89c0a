-- ===== src/Manager/After.antt =====
-- lmrs/manager.py: what holds after a call that returned, step by step.
use vvz_lmrs.Prelude.{
  ℕ, zero, suc, ◌+◌, ◌≡◌, refl, String, Bool, true, false, ltb, Option, none, some, List, [], ◌∷◌,
  Result, ok, err, Exception,
}
use vvz_lmrs.Prelude.Int.{ℤ}
use vvz_lmrs.Prelude.Value.{decimal}
use vvz_lmrs.Manager.{
  Platform, Written, PidFile, missing, unreadable, holding, Ending, done, raised, exhausted, Run,
  ◌followed_by◌, calling,
}
use vvz_lmrs.Manager.State.{run_dir, pid_file, write_state, clear_state, after_write, after_unlink}
use vvz_lmrs.Manager.Probe.{health_ok}
use vvz_lmrs.Manager.Process.{kill, poll_until, poll_for, tested, wait_health}
use vvz_lmrs.Manager.Control.{kill_and_clear}

-- If the call returned, the statement holds of its value, the process-id file and the world.
abbrev pub After : {S A : Type 0} → Run S A → (A → PidFile → S → Type 0) → Type 0
After (done a, f, w) P = P a f w
After (raised e, f, w) P = Unit
After (exhausted, f, w) P = Unit

pub After-followed_by :
    {S A B : Type 0} (r : Run S A) (k : A → PidFile → S → Run S B) (P : A → PidFile → S → Type 0)
    (Q : B → PidFile → S → Type 0)
    → After r P
    → ((a : A) (f : PidFile) (w : S) → P a f w → After (k a f w) Q)
    → After (r followed_by k) Q
After-followed_by (done a, f, w) k P Q h next = next a f w h
After-followed_by (raised e, f, w) k P Q h next = tt
After-followed_by (exhausted, f, w) k P Q h next = tt

pub After-weaken :
    {S A : Type 0} (r : Run S A) (P Q : A → PidFile → S → Type 0)
    → After r P
    → ((a : A) (f : PidFile) (w : S) → P a f w → Q a f w)
    → After r Q
After-weaken (done a, f, w) P Q h weaker = weaker a f w h
After-weaken (raised e, f, w) P Q h weaker = tt
After-weaken (exhausted, f, w) P Q h weaker = tt

-- A call after another of which nothing is known.
pub After-any :
    {S A B : Type 0} (r : Run S A) (k : A → PidFile → S → Run S B) (Q : B → PidFile → S → Type 0)
    → ((a : A) (f : PidFile) (w : S) → After (k a f w) Q)
    → After (r followed_by k) Q
After-any (done a, f, w) k Q next = next a f w
After-any (raised e, f, w) k Q next = tt
After-any (exhausted, f, w) k Q next = tt

pub After-calling :
    {S A : Type 0} (f : PidFile) (r : Result A × S)
    → After (calling f r) (λ a g v. (r ≡ (ok a, v)) × (g ≡ f))
After-calling f (ok a, w) = (refl, refl)
After-calling f (err e, w) = tt

module _ {S : Type 0} (os : Platform S) where
  after_unlink_lem :
      (f : PidFile) (a : Option Exception × S) → After (after_unlink os f a) (λ _ g _. g ≡ missing)
  unfolding after_unlink
  after_unlink_lem f (none, w) = refl
  after_unlink_lem f (some e, w) = tt

  pub clear_state_lem : (f : PidFile) (w : S) → After (clear_state os f w) (λ _ g _. g ≡ missing)
  unfolding clear_state
  clear_state_lem missing w = refl
  clear_state_lem unreadable w = after_unlink_lem unreadable (os.unlink (pid_file os) w)
  clear_state_lem (holding text) w = after_unlink_lem (holding text) (os.unlink (pid_file os) w)

  pub kill_and_clear_lem :
      (pid : ℤ) (f : PidFile) (w : S) → After (kill_and_clear os pid f w) (λ _ g _. g ≡ missing)
  unfolding kill_and_clear
  kill_and_clear_lem pid f w =
      After-any (kill os pid f w) (λ _. clear_state os) (λ _ g _. g ≡ missing) λ _. clear_state_lem

  after_write_lem :
      (text : List String) (f : PidFile) (a : Written × S)
      → After (after_write os text f a) (λ _ g _. g ≡ holding text)
  unfolding after_write
  after_write_lem text f (Written.written, w) = refl
  after_write_lem text f (Written.refused e, w) = tt
  after_write_lem text f (Written.torn e, w) = tt

  pub write_state_lem :
      (pid : ℤ) (cfg : String) (f : PidFile) (w : S)
      → After (write_state os pid cfg f w) (λ _ g _. g ≡ holding (decimal pid ∷ cfg ∷ []))
  unfolding write_state
  write_state_lem pid cfg f w =
      let text = decimal pid ∷ cfg ∷ [] in
      After-any (calling f (os.make_dir (run_dir os) w))
        (λ _ f w. after_write os text f (os.write_text (pid_file os) w)) (λ _ g _. g ≡ holding text)
        λ _ f w. after_write_lem text f (os.write_text (pid_file os) w)

  -- A poll that ends by its test saw the test pass last.
  Passed : (S → Result Bool × S) → Ending Bool × S → Type 0
  Passed test (done true, w) = (v : S) × (test v ≡ (ok true, w))
  Passed test (done false, w) = Unit
  Passed test (raised e, w) = Unit
  Passed test (exhausted, w) = Unit

  Passed-tested :
      (test : S → Result Bool × S) (again : S → Ending Bool × S) (v : S) (r : Result Bool × S)
      → test v ≡ r
      → Passed test (again (r.1))
      → Passed test (tested again r)
  unfolding Passed tested
  Passed-tested test again v (ok true, w) e h = (v, e)
  Passed-tested test again v (ok false, w) e h = h
  Passed-tested test again v (err x, w) e h = tt

  Passed-choice :
      (test : S → Result Bool × S) (b : Bool) (x y : Ending Bool × S)
      → Passed test x
      → Passed test y
      → Passed test (elim b [ true ↦ x | false ↦ y ])
  Passed-choice test true x y h k = h
  Passed-choice test false x y h k = k

  Passed-poll_until :
      (test : S → Result Bool × S) (pause deadline fuel : ℕ) (w : S)
      → Passed test (poll_until os test pause deadline fuel w)
  unfolding poll_until Passed
  Passed-poll_until test pause deadline zero w = tt
  Passed-poll_until test pause deadline (suc fuel) w =
      Passed-choice test (ltb (os.monotonic w) deadline)
        (tested (λ v. poll_until os test pause deadline fuel (os.sleep pause v)) (test w))
        (done false, w)
        (Passed-tested test (λ v. poll_until os test pause deadline fuel (os.sleep pause v)) w
          (test w) refl (Passed-poll_until test pause deadline fuel (os.sleep pause ((test w).1))))
        tt

  wait_read :
      (test : S → Result Bool × S) (f : PidFile) (r : Ending Bool × S)
      → Passed test r
      → After
          (r.0, f, r.1)
          (λ passed g w. (g ≡ f) × (passed ≡ true → (v : S) × (test v ≡ (ok true, w))))
  unfolding Passed
  wait_read test f (done true, w) h = (refl, λ _. h)
  wait_read test f (done false, w) h = (refl, λ e. cc)
  wait_read test f (raised e, w) h = tt
  wait_read test f (exhausted, w) h = tt

  pub wait_health_lem :
      (cfg : String) (timeout : ℕ) (f : PidFile) (w : S)
      → After (wait_health os cfg timeout f w) (λ healthy g w.
        (g ≡ f) × (healthy ≡ true → (v : S) × (health_ok os cfg v ≡ (ok true, w))))
  unfolding wait_health poll_for
  wait_health_lem cfg timeout f w =
      wait_read (health_ok os cfg) f (poll_for os (health_ok os cfg) 300 timeout w)
        (Passed-poll_until (health_ok os cfg) 300 (os.monotonic w + timeout) (suc timeout) w)
