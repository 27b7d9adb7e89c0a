-- ===== src/Examples/Managers.antt =====
-- Examples of the theorems on the process manager.
use vvz_lmrs.Prelude.{ℕ, ◌+◌, ◌≡◌, arith, true, none, some, [], ◌∷◌, ok}
use vvz_lmrs.Prelude.Int.{pos}
use vvz_lmrs.Manager.{Platform, delivered, trusted, written, PidFile, missing, holding, done}
use vvz_lmrs.Manager.State.{read_state}
use vvz_lmrs.Manager.Control.{start_at, stop_server, server_status, restart, main}
use vvz_lmrs.Manager.Polling.{IsSettled}
use vvz_lmrs.Manager.After.{After}
use vvz_lmrs.Manager.Endings.{main_settles}
use vvz_lmrs.Manager.Outcomes.{StatusEnds, stop_then_status, status_says}
use vvz_lmrs.Manager.Started.{StartEnds, start_ends}

-- A system whose world is its clock, where every process lives and every server is healthy.
abbrev os : Platform ℕ
os = record {
  environ = λ _. none;
  join = λ directory name. name;
  show = λ _. "";
  load_json = λ _ _. none;
  create_default_context = λ _. trusted;
  urlopen = λ _ _ w. (some (pos 200), w);
  connect_ex = λ _ _ w. (ok (pos 1), w);
  monotonic = λ w. w;
  sleep = λ d w. w + d;
  kill = λ _ _ w. (delivered, w);
  make_dir = λ _ w. (ok tt, w);
  open_log = λ _ w. (ok tt, w);
  popen = λ _ w. (ok (pos 42), w);
  poll = λ _ w. (none, w);
  write_text = λ _ w. (written, w);
  unlink = λ _ w. (none, w);
}

abbrev recorded_file : PidFile
recorded_file = holding ("41" ∷ "/etc/lmrs/config.json" ∷ [])

main_settles_example : IsSettled ((main os restart none recorded_file 0).0)
main_settles_example =
    main_settles os (λ d w. omega arith) (λ pid n w. omega arith) (λ url ca w. omega arith)
      (λ host port w. omega arith) restart none recorded_file 0

start_ends_example :
    StartEnds os "c.json" true
      (read_state missing)
      missing
      0
      (start_at os (some "c.json") true missing 0)
start_ends_example = start_ends os (some "c.json") true missing 0

stop_then_status_example : After (stop_server os recorded_file 0) (λ code g v.
    (code ≡ 0) × (server_status os g v ≡ (done 3, g, v)) × (stop_server os g v ≡ (done 0, g, v)))
stop_then_status_example = stop_then_status os recorded_file 0

status_says_example :
    After
      (server_status os recorded_file 0)
      (λ code g v. StatusEnds os (read_state recorded_file) code recorded_file g 0 v)
status_says_example = status_says os recorded_file 0
