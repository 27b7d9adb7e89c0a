-- ===== src/Manager/Endings.antt =====
-- lmrs/manager.py: every command of the manager ends.
use vvz_lmrs.Prelude.{
  ℕ, ◌+◌, ◌≤◌, String, Bool, true, false, Option, none, some, arith, [], ◌∷◌, Exception, List,
}
use vvz_lmrs.Prelude.Int.{ℤ}
use vvz_lmrs.Prelude.Value.{Value, decimal}
use vvz_lmrs.Manager.{Platform, Written, PidFile, missing, unreadable, holding, calling}
use vvz_lmrs.Manager.State.{
  run_dir, log_dir, pid_file, config_path, Recorded, read_state, write_state, clear_state,
  after_write, after_unlink,
}
use vvz_lmrs.Lifecycle.{text_or}
use vvz_lmrs.Manager.Probe.{listen_endpoint, health_ok}
use vvz_lmrs.Manager.Process.{poll_for, wait_health, pid_alive, port_free, kill}
use vvz_lmrs.Manager.Control.{
  Action, start, stop, status, restart, main, start_at, start_recorded, start_beside, launch_server,
  polled, written_state, after_health, health_failed, stop_server, stop_recorded, stop_process,
  server_status, status_recorded, status_alive, restart_server, start_on_port, kill_and_clear,
  make_dirs, open_log, spawn, stop_and_find,
}
use vvz_lmrs.Manager.Polling.{
  IsSettled, IsSettled-followed_by, IsSettled-calling, refuses-Keeps, poll_for-IsSettled,
  wait_health-IsSettled, kill-IsSettled,
}

module _ {S : Type 0} (os : Platform S) where
  after_unlink-IsSettled :
      (f : PidFile) (a : Option Exception × S) → IsSettled ((after_unlink os f a).0)
  unfolding after_unlink
  after_unlink-IsSettled f (none, w) = tt
  after_unlink-IsSettled f (some e, w) = tt

  clear_state-IsSettled : (f : PidFile) (w : S) → IsSettled ((clear_state os f w).0)
  unfolding clear_state
  clear_state-IsSettled missing w = tt
  clear_state-IsSettled unreadable w = after_unlink-IsSettled unreadable _
  clear_state-IsSettled (holding text) w = after_unlink-IsSettled (holding text) _

  after_write-IsSettled :
      (text : List String) (f : PidFile) (a : Written × S) → IsSettled ((after_write os text f a).0)
  unfolding after_write
  after_write-IsSettled text f (Written.written, w) = tt
  after_write-IsSettled text f (Written.refused e, w) = tt
  after_write-IsSettled text f (Written.torn e, w) = tt

  write_state-IsSettled :
      (pid : ℤ) (cfg : String) (f : PidFile) (w : S) → IsSettled ((write_state os pid cfg f w).0)
  unfolding write_state
  write_state-IsSettled pid cfg f w =
      IsSettled-followed_by (calling f (os.make_dir (run_dir os) w)) _
        (IsSettled-calling f (os.make_dir (run_dir os) w))
        λ _ f w. after_write-IsSettled (decimal pid ∷ cfg ∷ []) f (os.write_text (pid_file os) w)

-- The documented behaviour of the clock: it is monotonic, and `sleep` sleeps at least its time.
module _ {S : Type 0} (os : Platform S)
    (sleeps : (d : ℕ) (w : S) → os.monotonic w + d ≤ os.monotonic (os.sleep d w))
    (kills : (pid : ℤ) (n : ℕ) (w : S) → os.monotonic w ≤ os.monotonic ((os.kill pid n w).1))
    (opens : (url : String) (ca : Option Value) (w : S)
      → os.monotonic w ≤ os.monotonic ((os.urlopen url ca w).1))
    (connects : (host : String) (port : ℤ) (w : S)
      → os.monotonic w ≤ os.monotonic ((os.connect_ex host port w).1)) where
  kill_and_clear-IsSettled :
      (pid : ℤ) (f : PidFile) (w : S) → IsSettled ((kill_and_clear os pid f w).0)
  unfolding kill_and_clear
  kill_and_clear-IsSettled pid f w =
      IsSettled-followed_by (kill os pid f w) _
        (kill-IsSettled os sleeps kills opens connects pid f w)
        λ _ f w. clear_state-IsSettled os f w

  after_health-IsSettled :
      (pid : ℤ) (healthy : Bool) (f : PidFile) (w : S)
      → IsSettled ((after_health os pid healthy f w).0)
  unfolding after_health health_failed
  after_health-IsSettled pid true f w = tt
  after_health-IsSettled pid false f w =
      IsSettled-followed_by (kill_and_clear os pid f w) _ (kill_and_clear-IsSettled pid f w)
        λ _ f w. tt

  written_state-IsSettled :
      (cfg : String) (wait : Bool) (pid : ℤ) (f : PidFile) (w : S)
      → IsSettled ((written_state os cfg wait pid f w).0)
  unfolding written_state
  written_state-IsSettled cfg false pid f w = tt
  written_state-IsSettled cfg true pid f w =
      IsSettled-followed_by (wait_health os cfg 45_000 f w) (after_health os pid)
        (wait_health-IsSettled os sleeps kills opens connects cfg 45_000 f w)
        (after_health-IsSettled pid)

  polled-IsSettled :
      (cfg : String) (wait : Bool) (pid : ℤ) (f : PidFile) (a : Option ℤ × S)
      → IsSettled ((polled os cfg wait pid f a).0)
  unfolding polled
  polled-IsSettled cfg wait pid f (some _, w) = tt
  polled-IsSettled cfg wait pid f (none, w) =
      IsSettled-followed_by (write_state os pid cfg f w) _ (write_state-IsSettled os pid cfg f w)
        λ _. written_state-IsSettled cfg wait pid

  spawn-IsSettled : (cfg : String) (f : PidFile) (w : S) → IsSettled ((spawn os cfg f w).0)
  unfolding spawn open_log make_dirs
  spawn-IsSettled cfg f w =
      IsSettled-followed_by (open_log os f w) _
        (IsSettled-followed_by (make_dirs os f w) _
          (IsSettled-followed_by (calling f (os.make_dir (run_dir os) w)) _
            (IsSettled-calling f (os.make_dir (run_dir os) w))
            λ _ f w. IsSettled-calling f (os.make_dir (log_dir os) w))
          λ _ f w. IsSettled-calling f (os.open_log (os.join (log_dir os) "adapter.log") w))
        λ _ f w. IsSettled-calling f (os.popen cfg w)

  launch-IsSettled :
      (cfg : String) (wait : Bool) (f : PidFile) (w : S)
      → IsSettled ((launch_server os cfg wait f w).0)
  unfolding launch_server
  launch-IsSettled cfg wait f w =
      IsSettled-followed_by (spawn os cfg f w) _ (spawn-IsSettled cfg f w)
        λ pid f w. polled-IsSettled cfg wait pid f (os.poll pid (os.sleep 400 w))

  start_beside-IsSettled :
      (cfg : String) (wait alive : Bool) (f : PidFile) (w : S)
      → IsSettled ((start_beside os cfg wait alive f w).0)
  unfolding start_beside
  start_beside-IsSettled cfg wait true f w = tt
  start_beside-IsSettled cfg wait false f w =
      IsSettled-followed_by (clear_state os f w) _ (clear_state-IsSettled os f w)
        λ _. launch-IsSettled cfg wait

  start_recorded-IsSettled :
      (cfg : String) (wait : Bool) (r : Recorded) (f : PidFile) (w : S)
      → IsSettled ((start_recorded os cfg wait r f w).0)
  unfolding start_recorded
  start_recorded-IsSettled cfg wait (none, _) f w = launch-IsSettled cfg wait f w
  start_recorded-IsSettled cfg wait (some pid, _) f w =
      IsSettled-followed_by (calling f (pid_alive os pid w)) (start_beside os cfg wait)
        (IsSettled-calling f (pid_alive os pid w)) (start_beside-IsSettled cfg wait)

  stop_process-IsSettled :
      (pid : ℤ) (alive : Bool) (f : PidFile) (w : S) → IsSettled ((stop_process os pid alive f w).0)
  unfolding stop_process
  stop_process-IsSettled pid false f w =
      IsSettled-followed_by (clear_state os f w) _ (clear_state-IsSettled os f w) λ _ f w. tt
  stop_process-IsSettled pid true f w =
      IsSettled-followed_by (kill_and_clear os pid f w) _ (kill_and_clear-IsSettled pid f w)
        λ _ f w. tt

  stop_recorded-IsSettled :
      (r : Recorded) (f : PidFile) (w : S) → IsSettled ((stop_recorded os r f w).0)
  unfolding stop_recorded
  stop_recorded-IsSettled (none, _) f w = tt
  stop_recorded-IsSettled (some pid, _) f w =
      IsSettled-followed_by (calling f (pid_alive os pid w)) (stop_process os pid)
        (IsSettled-calling f (pid_alive os pid w)) (stop_process-IsSettled pid)

  status_alive-IsSettled :
      (cfg : String) (alive : Bool) (f : PidFile) (w : S)
      → IsSettled ((status_alive os cfg alive f w).0)
  unfolding status_alive
  status_alive-IsSettled cfg false f w =
      IsSettled-followed_by (clear_state os f w) _ (clear_state-IsSettled os f w) λ _ f w. tt
  status_alive-IsSettled cfg true f w =
      IsSettled-followed_by (calling f (health_ok os cfg w)) _
        (IsSettled-calling f (health_ok os cfg w)) λ _ f w. tt

  status_recorded-IsSettled :
      (r : Recorded) (f : PidFile) (w : S) → IsSettled ((status_recorded os r f w).0)
  unfolding status_recorded
  status_recorded-IsSettled (none, _) f w = tt
  status_recorded-IsSettled (some pid, cfg) f w =
      IsSettled-followed_by (calling f (pid_alive os pid w)) _
        (IsSettled-calling f (pid_alive os pid w))
        (status_alive-IsSettled (text_or cfg (config_path os)))

  start_on_port-IsSettled :
      (cfg : String) (endpoint : String × ℤ) (f : PidFile) (w : S)
      → IsSettled ((start_on_port os cfg endpoint f w).0)
  unfolding start_on_port port_free start_at
  start_on_port-IsSettled cfg (host, port) f w =
      let polled = poll_for os (port_free os host port) 300 30_000 w in
      IsSettled-followed_by (polled.0, f, polled.1) _
        (poll_for-IsSettled os sleeps (port_free os host port) 300 30_000 w
          (λ v.
            refuses-Keeps os sleeps kills opens connects v (os.connect_ex host port v)
              (connects host port v))
          (omega arith))
        λ _ f. start_recorded-IsSettled (text_or (some cfg) (config_path os)) true (read_state f) f

  stop_and_find-IsSettled :
      (cfg : String) (f : PidFile) (w : S) → IsSettled ((stop_and_find os cfg f w).0)
  unfolding stop_and_find stop_server
  stop_and_find-IsSettled cfg f w =
      IsSettled-followed_by (stop_server os f w) _ (stop_recorded-IsSettled (read_state f) f w)
        λ _ f w. IsSettled-calling f (listen_endpoint os cfg w, w)

  -- When the clock is monotonic over every call of the operating system and `sleep` lets at least
  -- its time pass, each of the four commands returns or raises, for every configuration path,
  -- process-id file and world: no loop of the manager outlives the rounds it is given.
  pub main_settles :
      (action : Action) (cfg : Option String) (f : PidFile) (w : S)
      → IsSettled ((main os action cfg f w).0)
  unfolding main start_at stop_server server_status restart_server
  main_settles start cfg f w =
      start_recorded-IsSettled (text_or cfg (config_path os)) false (read_state f) f w
  main_settles stop cfg f w = stop_recorded-IsSettled (read_state f) f w
  main_settles status cfg f w = status_recorded-IsSettled (read_state f) f w
  main_settles restart cfg f w =
      let resolved = text_or cfg (config_path os) in
      IsSettled-followed_by (stop_and_find os resolved f w) (start_on_port os resolved)
        (stop_and_find-IsSettled resolved f w) (start_on_port-IsSettled resolved)
