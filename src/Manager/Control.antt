-- ===== src/Manager/Control.antt =====
-- lmrs/manager.py: `start`, `stop`, `status`, `restart` and the dispatch of `main`.
use vvz_lmrs.Prelude.{ℕ, String, Bool, true, false, Option, none, some, if◌then◌else◌}
use vvz_lmrs.Prelude.Int.{ℤ}
use vvz_lmrs.Lifecycle.{text_or}
use vvz_lmrs.Manager.{Platform, PidFile, done, Run, ◌followed_by◌, calling}
use vvz_lmrs.Manager.State.{
  Recorded, read_state, config_path, run_dir, log_dir, write_state, clear_state,
}
use vvz_lmrs.Manager.Probe.{health_ok, listen_endpoint}
use vvz_lmrs.Manager.Process.{pid_alive, wait_health, port_free, kill, poll_for}

-- `args.action`, of which the parser lets four values through
pub data Action : Type 0 where
  start stop status restart : Action

module _ {S : Type 0} (os : Platform S) where
  unfoldable pub kill_and_clear : ℤ → PidFile → S → Run S (Unit {0})
  unfolding kill clear_state
  kill_and_clear pid f w = kill os pid f w followed_by λ _ f w. clear_state os f w

  -- the end of a start whose server did not become healthy
  unfoldable pub health_failed : ℤ → PidFile → S → Run S ℕ
  unfolding kill_and_clear
  health_failed pid f w = kill_and_clear pid f w followed_by λ _ f w. (done 1, f, w)

  unfoldable pub after_health : ℤ → Bool → PidFile → S → Run S ℕ
  unfolding health_failed
  after_health pid true f w = (done 0, f, w)
  after_health pid false f w = health_failed pid f w

  -- the state is written; `wait` asks for `/health` as well
  unfoldable pub written_state : String → Bool → ℤ → PidFile → S → Run S ℕ
  unfolding wait_health after_health
  written_state cfg false pid f w = (done 0, f, w)
  written_state cfg true pid f w = wait_health os cfg 45000 f w followed_by after_health pid

  -- `proc.poll()` after the pause
  unfoldable pub polled : String → Bool → ℤ → PidFile → Option ℤ × S → Run S ℕ
  unfolding write_state written_state
  polled cfg wait pid f (some _, w) = (done 1, f, w)
  polled cfg wait pid f (none, w) =
      write_state os pid cfg f w followed_by λ _. written_state cfg wait pid

  unfoldable pub make_dirs : PidFile → S → Run S (Unit {0})
  unfolding run_dir log_dir
  make_dirs f w = calling f (os.make_dir (run_dir os) w) followed_by λ _ f w.
      calling f (os.make_dir (log_dir os) w)

  unfoldable pub open_log : PidFile → S → Run S (Unit {0})
  unfolding make_dirs log_dir
  open_log f w = make_dirs f w followed_by λ _ f w.
      calling f (os.open_log (os.join (log_dir os) "adapter.log") w)

  unfoldable pub spawn : String → PidFile → S → Run S ℤ
  unfolding open_log
  spawn cfg f w = open_log f w followed_by λ _ f w. calling f (os.popen cfg w)

  -- from the directories and the log to the answer
  unfoldable pub launch_server : String → Bool → PidFile → S → Run S ℕ
  unfolding spawn polled
  launch_server cfg wait f w =
      spawn cfg f w followed_by λ pid f w. polled cfg wait pid f (os.poll pid (os.sleep 400 w))

  unfoldable pub start_beside : String → Bool → Bool → PidFile → S → Run S ℕ
  unfolding clear_state launch_server
  start_beside cfg wait true f w = (done 1, f, w)
  start_beside cfg wait false f w = clear_state os f w followed_by λ _. launch_server cfg wait

  unfoldable pub start_recorded : String → Bool → Recorded → PidFile → S → Run S ℕ
  unfolding launch_server pid_alive start_beside
  start_recorded cfg wait (none, _) f w = launch_server cfg wait f w
  start_recorded cfg wait (some pid, _) f w =
      calling f (pid_alive os pid w) followed_by start_beside cfg wait

  unfoldable pub start_at : Option String → Bool → PidFile → S → Run S ℕ
  unfolding config_path read_state start_recorded
  start_at cfg wait f w = start_recorded (text_or cfg (config_path os)) wait (read_state f) f w

  unfoldable pub stop_process : ℤ → Bool → PidFile → S → Run S ℕ
  unfolding kill_and_clear clear_state
  stop_process pid false f w = clear_state os f w followed_by λ _ f w. (done 0, f, w)
  stop_process pid true f w = kill_and_clear pid f w followed_by λ _ f w. (done 0, f, w)

  unfoldable pub stop_recorded : Recorded → PidFile → S → Run S ℕ
  unfolding pid_alive stop_process
  stop_recorded (none, _) f w = (done 0, f, w)
  stop_recorded (some pid, _) f w = calling f (pid_alive os pid w) followed_by stop_process pid

  unfoldable pub stop_server : PidFile → S → Run S ℕ
  unfolding read_state stop_recorded
  stop_server f w = stop_recorded (read_state f) f w

  unfoldable pub status_alive : String → Bool → PidFile → S → Run S ℕ
  unfolding clear_state health_ok
  status_alive cfg false f w = clear_state os f w followed_by λ _ f w. (done 3, f, w)
  status_alive cfg true f w = calling f (health_ok os cfg w) followed_by λ healthy f w.
      (done (if healthy then 0 else 1), f, w)

  unfoldable pub status_recorded : Recorded → PidFile → S → Run S ℕ
  unfolding config_path pid_alive status_alive
  status_recorded (none, _) f w = (done 3, f, w)
  status_recorded (some pid, cfg) f w =
      calling f (pid_alive os pid w) followed_by status_alive (text_or cfg (config_path os))

  unfoldable pub server_status : PidFile → S → Run S ℕ
  unfolding read_state status_recorded
  server_status f w = status_recorded (read_state f) f w

  -- the wait for the port, whatever comes of it, and the start
  unfoldable pub start_on_port : String → String × ℤ → PidFile → S → Run S ℕ
  unfolding poll_for port_free start_at
  start_on_port cfg (host, port) f w =
      let (e, v) = poll_for os (port_free os host port) 300 30000 w in
      (e, f, v) followed_by λ _. start_at (some cfg) true

  unfoldable pub stop_and_find : String → PidFile → S → Run S (String × ℤ)
  unfolding stop_server listen_endpoint
  stop_and_find cfg f w =
      stop_server f w followed_by λ _ f w. calling f (listen_endpoint os cfg w, w)

  unfoldable pub restart_server : Option String → PidFile → S → Run S ℕ
  unfolding config_path stop_and_find start_on_port
  restart_server cfg f w =
      let resolved = text_or cfg (config_path os) in
      stop_and_find resolved f w followed_by start_on_port resolved

  -- `main`
  unfoldable pub main : Action → Option String → PidFile → S → Run S ℕ
  unfolding start_at stop_server server_status restart_server
  main start cfg f w = start_at cfg false f w
  main stop cfg f w = stop_server f w
  main status cfg f w = server_status f w
  main restart cfg f w = restart_server cfg f w
