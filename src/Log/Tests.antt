-- ===== src/Log/Tests.antt =====
-- The theorems on the log at a log that has one line.
use my_rtsp_server.Prelude.{ℕ, ◌≡◌, refl, ap, length, true, some, List, [], ◌∷◌, ◌++◌, arith}
use my_rtsp_server.Prelude.Text.{codes, decimal, print_more, bytes_eq}
use my_rtsp_server.Log.{
  Log, Reach, start, appended, init, avail, append, append_bytes, put_buffer, ended, log_error,
  log_warning, log_debug, prefix, two_digits,
}
use my_rtsp_server.Log.Writing.{
  Logger, Message, Step, message, timed_out, new, set_log_file, set_log_level, open_log, run, wrote,
  destroy, outside, behind_timeout, terminated,
}
use my_rtsp_server.Log.Lines.{lines, Fits}
use my_rtsp_server.Log.Delivered.{open_log-destroy}
use my_rtsp_server.Log.Buffers.{append_one_buffer}

abbrev one_line : Log
one_line = record {
  buffer = put_buffer 0 (record { bytes = codes "up" }) (λ i. record { bytes = [] });
  cur_buffer = 0;
  free_buffer_que = 0 ∷ 1 ∷ 2 ∷ 3 ∷ [];
  flush_buffer_que = [];
  file = [];
}

one_line-Reach : Reach (codes "up") one_line
unfolding init append append_bytes avail
one_line-Reach = appended (codes "up") start refl

append_one_buffer_example :
    (one_line.free_buffer_que ≡ 0 ∷ 1 ∷ 2 ∷ 3 ∷ [])
    × (one_line.cur_buffer ≡ 0)
    × (append (codes "down") one_line
        ≡ ended (record one_line {
          buffer = put_buffer 0 (append_bytes (codes "down") (one_line.buffer 0)) one_line.buffer;
        }))
append_one_buffer_example = append_one_buffer (codes "down") one_line-Reach

-- Two messages, of which the second is not logged, and a round of the thread between them.
abbrev hello : Message
hello = record {
  log_level = log_error;
  now = record { year = 124; mon = 4; mday = 12; hour = 9; min = 5; sec = 7 };
  file = codes "a.cpp";
  func = codes "f";
  line = 7;
  text = codes "up";
}

abbrev steps : List Step
steps = message hello ∷ timed_out ∷ message (record hello { log_level = log_debug }) ∷ []

steps-Fits : Fits steps
unfolding Fits prefix two_digits decimal
steps-Fits = (omega arith, (omega arith, tt))

abbrev said : List ℕ
said = codes "2024-05-12 09:05:07 <ERROR> a.cpp:f:7 up"

steps-lines : lines log_warning steps ≡ said
unfolding lines prefix two_digits print_more decimal
steps-lines = refl

open_log-destroy_example :
    (l : Logger) × (l' : Logger) × (log : Log) × (open_log true
        (set_log_level log_warning (set_log_file (codes "log") new))
      ≡ some l)
    × (run steps l ≡ wrote l')
    × (l'.buffers ≡ some log)
    × (destroy outside l' ≡ terminated (lines log_warning steps))
    × (destroy behind_timeout l'
        ≡ terminated (lines log_warning steps ++ (log.buffer log.cur_buffer).bytes))
unfolding bytes_eq
open_log-destroy_example =
    open_log-destroy log_warning (codes "log") steps refl steps-Fits
      (omega (arith, ap length steps-lines))
