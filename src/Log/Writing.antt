-- ===== src/Log/Writing.antt =====
-- `Log` of src/base/log.cpp as a whole, with the macros of include/base/log.h: where a line goes.
-- The terminal is the list of the bytes printed; `none` for the buffers: `Init` was not called, and
-- there is no buffer in use and no file.
use mathlib.Core.Option
use my_rtsp_server.Prelude.{
  ℕ, Bool, true, Option, none, some, List, [], ◌∷◌, ◌++◌, leb, if◌then◌else◌, assert, ◌>>◌,
}
use my_rtsp_server.Prelude.Text.{codes, bytes_eq}
use my_rtsp_server.Log.{
  Log, LogLevel, Time, log_debug, rank, Appending, ended, waits, fault, init, append, run_timeout,
  run_notified, close, line_of,
}

pub record Logger : Type 0 where
  pub this_log_level : LogLevel
  pub log_file : List ℕ
  pub is_std_out : Bool
  pub buffers : Option Log
  pub printed : List ℕ

unfoldable pub new : Logger
new = record {
  this_log_level = log_debug;
  log_file = [];
  is_std_out = true;
  buffers = none;
  printed = [];
}

unfoldable pub set_log_file : List ℕ → Logger → Logger
set_log_file file_name l = record l {
  log_file = file_name;
  is_std_out = bytes_eq file_name (codes "/dev/stdout");
}

abbrev pub set_log_level : LogLevel → Logger → Logger
set_log_level log_level l = record l { this_log_level = log_level }

-- `Init`; `opened` tells whether `fopen` gave a file. A second call ends the program: it puts away
-- a thread that was not joined.
unfoldable pub open_log : Bool → Logger → Option Logger
unfolding init
open_log opened l = elim l.buffers [
  | some _ ↦ none
  | none ↦ assert opened >> some (record l { buffers = some init })
]

-- The arguments of `Write`; `text` is what the format comes to.
pub record Message : Type 0 where
  pub log_level : LogLevel
  pub now : Time
  pub file : List ℕ
  pub func : List ℕ
  pub line : ℕ
  pub text : List ℕ

-- How a call comes out: it returns, it waits for a buffer, or it faults.
pub data Written : Type 0 where
  wrote stalls : Logger → Written
  crash : Written

-- The call of `Append`, from what it comes to.
abbrev pub appending : Appending → Logger → Written
appending (ended log) l = wrote (record l { buffers = some log })
appending (waits log) l = stalls (record l { buffers = some log })
appending fault l = crash

abbrev pub append_line : List ℕ → Option Log → Logger → Written
append_line log_line none l = crash
append_line log_line (some log) l = appending (append log_line log) l

unfoldable pub put_line : Option (Option (List ℕ)) → Logger → Written
put_line none l = crash
put_line (some none) l = wrote l
put_line (some (some log_line)) l =
    if l.is_std_out
    then wrote (record l { printed = l.printed ++ log_line })
    else append_line log_line l.buffers l

unfoldable pub write : Message → Logger → Written
write m l = put_line (line_of l.this_log_level m.log_level m.now m.file m.func m.line m.text) l

-- `LOG_ERROR`, `LOG_WARNING` and `LOG_DEBUG`.
unfoldable pub log_message : Message → Logger → Written
log_message m l = if leb (rank m.log_level) (rank l.this_log_level) then write m l else wrote l

-- A round of `Run`, if its thread was started.
abbrev pub run_round : (Log → Log) → Logger → Logger
run_round round l = record l { buffers = Option.map round l.buffers }

-- Where the writing thread stands while the destructor runs, which does not take the mutex: outside
-- of its rounds, behind the `fwrite` of a round that timed out, or behind that of a full buffer,
-- which is still in the queue.
pub data Position : Type 0 where
  outside behind_timeout behind_full : Position

abbrev pub behind : Position → Log → Log
behind outside log = log
behind behind_timeout log = record log { file = log.file ++ (log.buffer log.cur_buffer).bytes }
behind behind_full log = elim log.flush_buffer_que [
  | [] ↦ log
  | p ∷ ps ↦ record log { file = log.file ++ (log.buffer p).bytes }
]

-- How the destructor ends: it reads the buffer in use through the null pointer, or the file is
-- closed with these bytes, and `std::terminate` is called, since the thread was not joined.
pub data Ending : Type 0 where
  no_buffer : Ending
  terminated : List ℕ → Ending

abbrev pub destroy_buffers : Position → Option Log → Ending
destroy_buffers position none = no_buffer
destroy_buffers position (some log) = terminated (close (behind position log))

-- The destructor and those of its members. What the thread does with the closed file is left out.
unfoldable pub destroy : Position → Logger → Ending
destroy position l = destroy_buffers position l.buffers

-- What becomes of the log: a message, and the two ways in which the wait of `Run` ends.
pub data Step : Type 0 where
  message : Message → Step
  timed_out was_notified : Step

unfoldable pub run : List Step → Logger → Written
run [] l = wrote l
run (message m ∷ steps) l = elim (log_message m l) [
  | wrote l' ↦ run steps l'
  | stalls l' ↦ stalls l'
  | crash ↦ crash
]
run (timed_out ∷ steps) l = run steps (run_round run_timeout l)
run (was_notified ∷ steps) l = run steps (run_round run_notified l)
