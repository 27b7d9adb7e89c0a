-- ===== src/Manager/State.antt =====
-- lmrs/manager.py: the paths, and `_read_state`, `_write_state`, `_clear_state`.
use Prim.Native.Char.{code}
use vvz_lmrs.Prelude.{
  String, Option, none, some, or_else, List, [], ◌∷◌, Result, ok, err, Exception, if◌then◌else◌,
}
use vvz_lmrs.Prelude.Int.{ℤ}
use vvz_lmrs.Prelude.Value.{Scalar, is_space, to_int, decimal}
use vvz_lmrs.Manager.{
  Platform, Written, written, PidFile, missing, unreadable, holding, Run, done, raised,
  ◌followed_by◌, calling,
}

unfoldable pub reverse_onto : String → String → String
reverse_onto String.[] t = t
reverse_onto (String.◌∷◌ c s) t = reverse_onto s (String.◌∷◌ c t)

skip_blanks : String → String
unfolding is_space
skip_blanks String.[] = String.[]
skip_blanks (String.◌∷◌ c s) = if is_space (code c) then skip_blanks s else String.◌∷◌ c s

-- `text.strip()`
unfoldable pub strip : String → String
unfolding reverse_onto skip_blanks
strip s = reverse_onto (skip_blanks (reverse_onto (skip_blanks s) "")) ""

-- What the process-id file records.
abbrev pub Recorded : Type 0
Recorded = Option ℤ × Option String

unfoldable pub second_line : List String → Option String
unfolding strip
second_line [] = none
second_line (l ∷ _) = some (strip l)

unfoldable pub recorded : Result ℤ → List String → Recorded
unfolding second_line
recorded (err _) rest = (none, none)
recorded (ok pid) rest = (some pid, second_line rest)

-- `_read_state`; `int` raises nothing but `ValueError` on a text
unfoldable pub read_state : PidFile → Recorded
unfolding recorded to_int strip
read_state missing = (none, none)
read_state unreadable = (none, none)
read_state (holding []) = (none, none)
read_state (holding (l ∷ rest)) = recorded (to_int (Scalar.text (strip l))) rest

module _ {S : Type 0} (os : Platform S) where
  unfoldable pub config_path : String
  config_path = or_else (os.environ "LMRS_CONFIG") "/etc/lmrs/config.json"

  unfoldable pub run_dir : String
  run_dir = or_else (os.environ "LMRS_RUN_DIR") "/var/lmrs"

  unfoldable pub log_dir : String
  log_dir = or_else (os.environ "LMRS_LOG_DIR") "/var/log/lmrs"

  unfoldable pub pid_file : String
  unfolding run_dir
  pid_file = os.join run_dir "adapter.pid"

  unfoldable pub after_write : List String → PidFile → Written × S → Run S (Unit {0})
  after_write text f (written, w) = (done tt, holding text, w)
  after_write text f (Written.refused e, w) = (raised e, f, w)
  after_write text f (Written.torn e, w) = (raised e, holding [], w)

  -- `_write_state`, for a path without line breaks
  unfoldable pub write_state : ℤ → String → PidFile → S → Run S (Unit {0})
  unfolding run_dir pid_file after_write decimal
  write_state pid cfg f w = calling f (os.make_dir run_dir w) followed_by λ _ f w.
      after_write (decimal pid ∷ cfg ∷ []) f (os.write_text pid_file w)

  unfoldable pub after_unlink : PidFile → Option Exception × S → Run S (Unit {0})
  after_unlink f (none, w) = (done tt, missing, w)
  after_unlink f (some e, w) = (raised e, f, w)

  -- `_clear_state`; the `FileNotFoundError` of a missing file is passed over
  unfoldable pub clear_state : PidFile → S → Run S (Unit {0})
  unfolding pid_file after_unlink
  clear_state missing w = (done tt, missing, w)
  clear_state unreadable w = after_unlink unreadable (os.unlink pid_file w)
  clear_state (holding text) w = after_unlink (holding text) (os.unlink pid_file w)
