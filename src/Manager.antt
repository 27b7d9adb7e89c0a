-- ===== src/Manager.antt =====
-- lmrs/manager.py: starting, stopping and watching the server process. The operating system is a
-- parameter, which reads and changes a world `S`; the process-id file is the state kept here.
pub mod State
pub mod Probe
pub mod Process
pub mod Control
pub mod Polling
pub mod After
pub mod Endings
pub mod Outcomes
pub mod Started
use vvz_lmrs.Prelude.{ℕ, String, Bool, Option, List, Result, Exception}
use vvz_lmrs.Prelude.Int.{ℤ}
use vvz_lmrs.Prelude.Value.{Value}

-- What `os.kill` does: it delivers the signal, or raises `ProcessLookupError`, `PermissionError`
-- or another exception.
pub data Signalled : Type 0 where
  delivered no_process not_permitted : Signalled
  failed : Exception → Signalled

-- What `ssl.create_default_context` does: it returns a context, raises an `OSError` or an
-- `SSLError`, or raises another exception.
pub data Trust : Type 0 where
  trusted refused : Trust
  failed : Exception → Trust

-- What writing the process-id file does: it raises before the old text is gone, or after.
pub data Written : Type 0 where
  written : Written
  refused torn : Exception → Written

-- The calls on the operating system; times are in milliseconds.
pub record Platform (S : Type 0) : Type 0 where
  pub environ : String → Option String
  pub join : String → String → String
  pub show : Value → String
  pub load_json : String → S → Option Value
  pub create_default_context : Value → Trust
  pub urlopen : String → Option Value → S → Option ℤ × S
  pub connect_ex : String → ℤ → S → Result ℤ × S
  pub monotonic : S → ℕ
  pub sleep : ℕ → S → S
  pub kill : ℤ → ℕ → S → Signalled × S
  pub make_dir : String → S → Result (Unit {0}) × S
  pub open_log : String → S → Result (Unit {0}) × S
  pub popen : String → S → Result ℤ × S
  pub poll : ℤ → S → Option ℤ × S
  pub write_text : String → S → Written × S
  pub unlink : String → S → Option Exception × S

-- The process-id file, by its lines; a file that can be opened is UTF-8 text.
pub data PidFile : Type 0 where
  missing : PidFile
  unreadable : PidFile
  holding : List String → PidFile

-- How a call ends; `exhausted` stands for a loop that its fuel did not see through.
pub data Ending (A : Type 0) : Type 0 where
  done : A → Ending A
  raised : Exception → Ending A
  exhausted : Ending A

-- A call that may change the process-id file and the world.
abbrev pub Run : Type 0 → Type 0 → Type 0
Run S A = Ending A × PidFile × S

infixl 5 ◌followed_by◌
abbrev pub ◌followed_by◌ : {S A B : Type 0} → Run S A → (A → PidFile → S → Run S B) → Run S B
(done a, f, w) followed_by k = k a f w
(raised e, f, w) followed_by k = (raised e, f, w)
(exhausted, f, w) followed_by k = (exhausted, f, w)

-- A call that leaves the process-id file alone.
abbrev pub calling : {S A : Type 0} → PidFile → Result A × S → Run S A
calling f (Result.ok a, w) = (done a, f, w)
calling f (Result.err e, w) = (raised e, f, w)
