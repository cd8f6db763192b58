-- ===== src/Log.antt =====
-- include/base/logbuffer.h, include/base/log.h and src/base/log.cpp: the log, its four buffers, and
-- the thread that writes them out. What holds the mutex is one step. A pointer to a buffer is its
-- place in `m_buffer_`; the file is the list of the bytes written to it.
pub mod Buffers
pub mod Writing
pub mod Lines
pub mod Delivered
pub mod Printed
mod Tests
use my_rtsp_server.Prelude.{
  ℕ, zero, suc, ◌+◌, ◌-◌, ◌*◌, ◌≡◌, Bool, true, false, Option, none, some, List, [], ◌∷◌, ◌++◌, ltb,
  ◌==◌, if◌then◌else◌, ◌>>=◌, ◌>>◌, assert, leb, length,
}
use my_rtsp_server.Prelude.Text.{codes, decimal, print_more}

abbrev pub log_buffer_size : ℕ
log_buffer_size = 1024 * 1024

-- The bytes before `m_cur_ptr`.
pub record LogBuffer : Type 0 where
  pub bytes : List ℕ

unfoldable pub avail : LogBuffer → ℕ
avail b = log_buffer_size - length b.bytes

unfoldable pub append_bytes : List ℕ → LogBuffer → LogBuffer
unfolding avail
append_bytes buf b = if ltb (length buf) (avail b) then record { bytes = b.bytes ++ buf } else b

abbrev pub reset : LogBuffer
reset = record { bytes = [] }

abbrev pub buffer_num : ℕ
buffer_num = 4

pub record Log : Type 0 where
  pub buffer : ℕ → LogBuffer
  pub cur_buffer : ℕ
  pub free_buffer_que : List ℕ
  pub flush_buffer_que : List ℕ
  pub file : List ℕ

-- `Init`, where the file could be opened; the first free buffer is used and stays in the queue.
unfoldable pub init : Log
init = record {
  buffer = λ i. reset;
  cur_buffer = 0;
  free_buffer_que = 0 ∷ 1 ∷ 2 ∷ 3 ∷ [];
  flush_buffer_que = [];
  file = [];
}

abbrev pub put_buffer : ℕ → LogBuffer → (ℕ → LogBuffer) → ℕ → LogBuffer
put_buffer p b buffers q = if p == q then b else buffers q

-- How far a call of `Append` comes before it gives the mutex back: to its end, to a wait, or to
-- `front()` or `pop()` of an empty queue.
pub data Appending : Type 0 where
  ended waits : Log → Appending
  fault : Appending

-- The loop behind a full buffer, at its test.
unfoldable pub await_free : Log → Appending
await_free log = elim log.free_buffer_que [ [] ↦ fault | _ ∷ _ ↦ waits log ]

unfoldable pub append : List ℕ → Log → Appending
append log_line log =
    if avail (log.buffer log.cur_buffer) == 0
    then elim log.free_buffer_que [
      | [] ↦ fault
      | _ ∷ free ↦ await_free (record log {
        free_buffer_que = free;
        flush_buffer_que = log.flush_buffer_que ++ (log.cur_buffer ∷ []);
      })
    ]
    else ended (record log {
      buffer =
          put_buffer log.cur_buffer (append_bytes log_line (log.buffer log.cur_buffer)) log.buffer;
    })

-- `Run` behind a wait that timed out.
unfoldable pub run_timeout : Log → Log
run_timeout log = if length (log.buffer log.cur_buffer).bytes == 0 then log else record log {
  file = log.file ++ (log.buffer log.cur_buffer).bytes;
  buffer = put_buffer log.cur_buffer reset log.buffer;
}

-- The loop of `Run` over the queue of full buffers.
unfoldable pub flush_all : List ℕ → Log → Log
flush_all [] log = record log { flush_buffer_que = [] }
flush_all (p ∷ ps) log = flush_all ps (record log {
  file = log.file ++ (log.buffer p).bytes;
  buffer = put_buffer p reset log.buffer;
  free_buffer_que = log.free_buffer_que ++ (p ∷ []);
})

-- `Run` behind a wait that was notified.
unfoldable pub run_notified : Log → Log
run_notified log = flush_all log.flush_buffer_que log

-- The destructor writes what is left.
unfoldable pub write_queue : List ℕ → Log → List ℕ
write_queue [] log = []
write_queue (p ∷ ps) log = (log.buffer p).bytes ++ write_queue ps log

unfoldable pub close : Log → List ℕ
close log = log.file ++ write_queue log.flush_buffer_que log ++ (log.buffer log.cur_buffer).bytes

-- The states of the log, with the bytes of the lines that found room.
pub data Reach : List ℕ → Log → Type 0 where
  start : Reach [] init
  appended :
      {bytes : List ℕ} {log log' : Log} (log_line : List ℕ)
      → Reach bytes log
      → append log_line log ≡ ended log'
      → Reach
          (if ltb (length log_line) (avail (log.buffer log.cur_buffer))
            then bytes ++ log_line
            else bytes)
          log'
  blocked :
      {bytes : List ℕ} {log log' : Log} (log_line : List ℕ)
      → Reach bytes log
      → append log_line log ≡ waits log'
      → Reach bytes log'
  timeout : {bytes : List ℕ} {log : Log} → Reach bytes log → Reach bytes (run_timeout log)
  notified : {bytes : List ℕ} {log : Log} → Reach bytes log → Reach bytes (run_notified log)

pub data LogLevel : Type 0 where
  log_error log_warning log_debug : LogLevel

abbrev pub rank : LogLevel → ℕ
rank log_error = 0
rank log_warning = 1
rank log_debug = 2

-- What `localtime` gives.
pub record Time : Type 0 where
  pub year : ℕ
  pub mon : ℕ
  pub mday : ℕ
  pub hour : ℕ
  pub min : ℕ
  pub sec : ℕ

-- `%02d`
unfoldable pub two_digits : ℕ → List ℕ
two_digits n = if ltb n 10 then b'0' ∷ decimal n else decimal n

abbrev pub tag : LogLevel → List ℕ
tag log_error = codes " <ERROR> "
tag log_warning = codes " <WARNING> "
tag log_debug = codes " <DEBUG> "

unfoldable pub prefix : LogLevel → Time → List ℕ → List ℕ → ℕ → List ℕ
prefix level now file func line =
    decimal (now.year + 1900)
    ++ codes "-"
    ++ two_digits (now.mon + 1)
    ++ codes "-"
    ++ two_digits now.mday
    ++ codes " "
    ++ two_digits now.hour
    ++ codes ":"
    ++ two_digits now.min
    ++ codes ":"
    ++ two_digits now.sec
    ++ tag level
    ++ file
    ++ codes ":"
    ++ func
    ++ codes ":"
    ++ decimal line
    ++ codes " "

abbrev pub data_size : ℕ
data_size = 4096

-- The line that `Write` makes, where its level is logged (`none` inside: it is not). `none`
-- outside: the part before the message does not fit the array. `text` is what the format comes to.
unfoldable pub line_of :
    LogLevel → LogLevel → Time → List ℕ → List ℕ → ℕ → List ℕ → Option (Option (List ℕ))
line_of this_log_level level now file func line text =
    if ltb (rank this_log_level) (rank level)
    then some none
    else (assert (ltb (length (prefix level now file func line)) data_size)
        >> some (some (print_more data_size (prefix level now file func line) text)))
