-- ===== src/Manager/Polling.antt =====
-- lmrs/manager.py: its polling loops end, since every round sleeps until the clock has moved on.
use vvz_lmrs.Prelude.{
  ℕ, zero, suc, ◌+◌, ◌≤◌, ◌<◌, String, Bool, true, false, ltb, Option, none, some, Result, ok, err,
  arith, inl, inr, Bool-cases, if_case,
}
use vvz_lmrs.Prelude.Int.{ℤ}
use vvz_lmrs.Prelude.Value.{Value}
use vvz_lmrs.Manager.{
  Platform, Signalled, delivered, no_process, not_permitted, Trust, trusted, refused, PidFile,
  Ending, done, raised, exhausted, Run, ◌followed_by◌, calling,
}
use vvz_lmrs.Commands.{has_prefix}
use vvz_lmrs.Manager.Probe.{
  health_url, ca_of, get, server_section, health_ok, probe_url, probe_secure, probe_trusting,
  responded,
}
use vvz_lmrs.Manager.Process.{
  poll_until, poll_for, tested, wait_health, pid_alive, exits, negated, signal_answer, refuses,
  kill, after_term, await_exit, after_grace,
}

-- The call returned or raised: its loops saw their own end.
abbrev pub IsSettled : {A : Type 0} → Ending A → Type 0
IsSettled (done a) = Unit
IsSettled (raised e) = Unit
IsSettled exhausted = ⊥

pub IsSettled-followed_by :
    {S A B : Type 0} (r : Run S A) (k : A → PidFile → S → Run S B)
    → IsSettled (r.0)
    → ((a : A) (f : PidFile) (w : S) → IsSettled ((k a f w).0))
    → IsSettled ((r followed_by k).0)
IsSettled-followed_by (done a, f, w) k h next = next a f w
IsSettled-followed_by (raised e, f, w) k h next = tt
IsSettled-followed_by (exhausted, f, w) k h next = h

pub IsSettled-calling :
    {S A : Type 0} (f : PidFile) (r : Result A × S) → IsSettled ((calling f r).0)
IsSettled-calling f (ok a, w) = tt
IsSettled-calling f (err e, w) = tt

IsSettled-tested :
    {S : Type 0} (again : S → Ending Bool × S) (r : Result Bool × S)
    → IsSettled ((again (r.1)).0)
    → IsSettled ((tested again r).0)
unfolding tested
IsSettled-tested again (ok true, w) h = tt
IsSettled-tested again (ok false, w) h = h
IsSettled-tested again (err e, w) h = tt

module _ {S : Type 0} (os : Platform S)
    (sleeps : (d : ℕ) (w : S) → os.monotonic w + d ≤ os.monotonic (os.sleep d w)) where
  poll_until-IsSettled :
      (test : S → Result Bool × S) (pause deadline n : ℕ) (w : S)
      → ((v : S) → os.monotonic v ≤ os.monotonic ((test v).1))
      → 0 < pause
      → deadline ≤ os.monotonic w + n
      → IsSettled ((poll_until os test pause deadline (suc n) w).0)
  unfolding poll_until
  poll_until-IsSettled test pause deadline zero w keeps positive enough =
      elim (Bool-cases (ltb (os.monotonic w) deadline)) [
        | inl early ↦ absurd (ground arith)
        | inr late ↦ rw (late, IsSettled) tt
      ]
  poll_until-IsSettled test pause deadline (suc n) w keeps positive enough =
      elim (Bool-cases (ltb (os.monotonic w) deadline)) [
        | inl early ↦
            rw (early, IsSettled)
              (IsSettled-tested (λ v. poll_until os test pause deadline (suc n) (os.sleep pause v))
                (test w)
                (poll_until-IsSettled test pause deadline n (os.sleep pause ((test w).1)) keeps
                  positive (omega (arith, enough, positive, keeps w, sleeps pause ((test w).1)))))
        | inr late ↦ rw (late, IsSettled) tt
      ]

  pub poll_for-IsSettled :
      (test : S → Result Bool × S) (pause timeout : ℕ) (w : S)
      → ((v : S) → os.monotonic v ≤ os.monotonic ((test v).1))
      → 0 < pause
      → IsSettled ((poll_for os test pause timeout w).0)
  unfolding poll_for
  poll_for-IsSettled test pause timeout w keeps positive =
      poll_until-IsSettled test pause (os.monotonic w + timeout) timeout w keeps positive
        (omega arith)

-- A call that does not turn the clock back, whatever it answers.
abbrev pub Keeps : {S A : Type 0} → Platform S → S → Result A × S → Type 0
Keeps os w r = os.monotonic w ≤ os.monotonic (r.1)

-- The documented behaviour of the clock: it is monotonic, and `sleep` sleeps at least its time.
module _ {S : Type 0} (os : Platform S)
    (sleeps : (d : ℕ) (w : S) → os.monotonic w + d ≤ os.monotonic (os.sleep d w))
    (kills : (pid : ℤ) (n : ℕ) (w : S) → os.monotonic w ≤ os.monotonic ((os.kill pid n w).1))
    (opens : (url : String) (ca : Option Value) (w : S)
      → os.monotonic w ≤ os.monotonic ((os.urlopen url ca w).1))
    (connects : (host : String) (port : ℤ) (w : S)
      → os.monotonic w ≤ os.monotonic ((os.connect_ex host port w).1)) where
  signal_answer-Keeps :
      (w : S) (a : Signalled × S)
      → os.monotonic w ≤ os.monotonic (a.1)
      → Keeps os w (negated (signal_answer a))
  unfolding signal_answer negated
  signal_answer-Keeps w (delivered, v) h = h
  signal_answer-Keeps w (no_process, v) h = h
  signal_answer-Keeps w (not_permitted, v) h = h
  signal_answer-Keeps w (Signalled.failed e, v) h = h

  pub refuses-Keeps :
      (w : S) (a : Result ℤ × S) → os.monotonic w ≤ os.monotonic (a.1) → Keeps os w (refuses os a)
  unfolding refuses
  refuses-Keeps w (ok code, v) h = h
  refuses-Keeps w (err e, v) h = h

  responded-Keeps :
      (w : S) (a : Option ℤ × S) → os.monotonic w ≤ os.monotonic (a.1) → Keeps os w (responded os a)
  unfolding responded
  responded-Keeps w (none, v) h = h
  responded-Keeps w (some code, v) h = h

  probe_trusting-Keeps :
      (url : String) (ca : Value) (t : Trust) (w : S) → Keeps os w (probe_trusting os url ca t w)
  unfolding probe_trusting
  probe_trusting-Keeps url ca trusted w = responded-Keeps w _ (opens url (some ca) w)
  probe_trusting-Keeps url ca refused w = omega arith
  probe_trusting-Keeps url ca (Trust.failed e) w = omega arith

  probe_secure-Keeps :
      (url : String) (ca : Result Value) (w : S) → Keeps os w (probe_secure os url ca w)
  unfolding probe_secure
  probe_secure-Keeps url (err e) w = omega arith
  probe_secure-Keeps url (ok ca) w = probe_trusting-Keeps url ca (os.create_default_context ca) w

  probe_url-Keeps :
      (cfg : String) (url : Result String) (w : S) → Keeps os w (probe_url os cfg url w)
  unfolding probe_url
  probe_url-Keeps cfg (err e) w = omega arith
  probe_url-Keeps cfg (ok url) w =
      if_case (λ (r : Result Bool × S). Keeps os w r) (has_prefix "https" url)
        {x = probe_secure os url (ca_of (get "ssl" (server_section os cfg w))) w}
        {y = responded os (os.urlopen url none w)}
        (λ _. probe_secure-Keeps url (ca_of (get "ssl" (server_section os cfg w))) w)
        (λ _. responded-Keeps w (os.urlopen url none w) (opens url none w))

  pub wait_health-IsSettled :
      (cfg : String) (timeout : ℕ) (f : PidFile) (w : S)
      → IsSettled ((wait_health os cfg timeout f w).0)
  unfolding wait_health health_ok
  wait_health-IsSettled cfg timeout f w =
      poll_for-IsSettled os sleeps (health_ok os cfg) 300 timeout w
        (λ v. probe_url-Keeps cfg (health_url os cfg v) v) (omega arith)

  after_grace-IsSettled :
      (pid : ℤ) (gone : Bool) (f : PidFile) (w : S) → IsSettled ((after_grace os pid gone f w).0)
  unfolding after_grace
  after_grace-IsSettled pid true f w = tt
  after_grace-IsSettled pid false f w = IsSettled-calling f _

  after_term-IsSettled :
      (pid : ℤ) (f : PidFile) (a : Signalled × S) → IsSettled ((after_term os pid f a).0)
  unfolding after_term await_exit exits pid_alive
  after_term-IsSettled pid f (delivered, w) =
      IsSettled-followed_by _ (after_grace os pid)
        (poll_for-IsSettled os sleeps (exits os pid) 200 15_000 w
          (λ v. signal_answer-Keeps v _ (kills pid 0 v)) (omega arith))
        (after_grace-IsSettled pid)
  after_term-IsSettled pid f (no_process, w) = tt
  after_term-IsSettled pid f (not_permitted, w) = tt
  after_term-IsSettled pid f (Signalled.failed e, w) = tt

  pub kill-IsSettled : (pid : ℤ) (f : PidFile) (w : S) → IsSettled ((kill os pid f w).0)
  unfolding kill
  kill-IsSettled pid f w = after_term-IsSettled pid f (os.kill pid 15 w)
