-- ===== src/Manager/Process.antt =====
-- lmrs/manager.py: `_pid_alive`, `_wait_health`, `_port_free` and `_kill`. Each loop of the file
-- polls until a deadline; its fuel is one round for each millisecond of the wait.
use vvz_lmrs.Prelude.{
  ℕ, zero, suc, ◌+◌, String, Bool, true, false, not, ltb, Result, ok, err, Exception,
}
use vvz_lmrs.Prelude.Int.{ℤ, pos, eqb_ℤ}
use vvz_lmrs.Manager.{
  Platform, Signalled, delivered, no_process, not_permitted, PidFile, Ending, done, raised,
  exhausted, Run, ◌followed_by◌, calling,
}
use vvz_lmrs.Manager.Probe.{health_ok}

abbrev pub permission_error : Exception
permission_error = record { type_name = "PermissionError"; message = "Operation not permitted" }

-- `_pid_alive`, from the answer to the signal 0
unfoldable pub signal_answer : {S : Type 0} → Signalled × S → Result Bool × S
signal_answer (delivered, w) = (ok true, w)
signal_answer (no_process, w) = (ok false, w)
signal_answer (not_permitted, w) = (ok true, w)
signal_answer (Signalled.failed e, w) = (err e, w)

unfoldable pub negated : {S : Type 0} → Result Bool × S → Result Bool × S
negated (ok b, w) = (ok (not b), w)
negated (err e, w) = (err e, w)

-- a round of a loop: the loop goes on when the test fails
unfoldable pub tested : {S : Type 0} → (S → Ending Bool × S) → Result Bool × S → Ending Bool × S
tested again (ok true, w) = (done true, w)
tested again (ok false, w) = again w
tested again (err e, w) = (raised e, w)

module _ {S : Type 0} (os : Platform S) where
  -- `while time.monotonic() < deadline: if test: return True; time.sleep(pause)`, and whether
  -- the test passed in time
  unfoldable pub poll_until : (S → Result Bool × S) → ℕ → ℕ → ℕ → S → Ending Bool × S
  unfolding tested
  poll_until test pause deadline zero w = (exhausted, w)
  poll_until test pause deadline (suc fuel) w = elim (ltb (os.monotonic w) deadline) [
    | true ↦ tested (λ v. poll_until test pause deadline fuel (os.sleep pause v)) (test w)
    | false ↦ (done false, w)
  ]

  unfoldable pub poll_for : (S → Result Bool × S) → ℕ → ℕ → S → Ending Bool × S
  unfolding poll_until
  poll_for test pause timeout w = poll_until test pause (os.monotonic w + timeout) (suc timeout) w

  -- `_wait_health`
  unfoldable pub wait_health : String → ℕ → PidFile → S → Run S Bool
  unfolding poll_for health_ok
  wait_health cfg timeout f w = let (e, v) = poll_for (health_ok os cfg) 300 timeout w in (e, f, v)

  unfoldable pub pid_alive : ℤ → S → Result Bool × S
  unfolding signal_answer
  pid_alive pid w = signal_answer (os.kill pid 0 w)

  unfoldable pub refuses : Result ℤ × S → Result Bool × S
  refuses (ok code, w) = (ok (not (eqb_ℤ code (pos 0))), w)
  refuses (err e, w) = (err e, w)

  -- `_port_free`
  unfoldable pub port_free : String → ℤ → S → Result Bool × S
  unfolding refuses
  port_free host port w = refuses (os.connect_ex host port w)

  unfoldable pub exits : ℤ → S → Result Bool × S
  unfolding negated pid_alive
  exits pid w = negated (pid_alive pid w)

  -- `signal.SIGKILL` when the grace is over; a process that is gone by then is passed over
  unfoldable pub finish : Signalled × S → Result (Unit {0}) × S
  finish (delivered, w) = (ok tt, w)
  finish (no_process, w) = (ok tt, w)
  finish (not_permitted, w) = (err permission_error, w)
  finish (Signalled.failed e, w) = (err e, w)

  unfoldable pub after_grace : ℤ → Bool → PidFile → S → Run S (Unit {0})
  unfolding finish
  after_grace pid true f w = (done tt, f, w)
  after_grace pid false f w = calling f (finish (os.kill pid 9 w))

  -- the wait for a process that was asked to end
  unfoldable pub await_exit : ℤ → PidFile → S → Run S (Unit {0})
  unfolding poll_for exits after_grace
  await_exit pid f w =
      let (e, v) = poll_for (exits pid) 200 15000 w in (e, f, v) followed_by after_grace pid

  unfoldable pub after_term : ℤ → PidFile → Signalled × S → Run S (Unit {0})
  unfolding await_exit
  after_term pid f (delivered, w) = await_exit pid f w
  after_term pid f (no_process, w) = (done tt, f, w)
  after_term pid f (not_permitted, w) = (raised permission_error, f, w)
  after_term pid f (Signalled.failed e, w) = (raised e, f, w)

  -- `_kill`, with the grace of 15 seconds that its callers leave
  unfoldable pub kill : ℤ → PidFile → S → Run S (Unit {0})
  unfolding after_term
  kill pid f w = after_term pid f (os.kill pid 15 w)
