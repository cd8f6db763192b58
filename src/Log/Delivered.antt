-- ===== src/Log/Delivered.antt =====
-- What becomes of the messages of a log that writes to a file.
use mathlib.Core.Option
use my_rtsp_server.Prelude.{
  ℕ, ◌+◌, ◌<◌, ◌≤◌, ◌≡◌, refl, sym, ap, ◌∙◌, subst, true, false, inl, inr, some, List, [], ◌∷◌,
  ◌++◌, append_assoc, append-nil, leb, ltb, ◌==◌, Bool-cases, if◌then◌else◌, length, length-append,
  arith,
}
use my_rtsp_server.Prelude.Text.{codes, bytes_eq, print_more}
use my_rtsp_server.Log.{
  Log, LogLevel, rank, avail, append_bytes, init, run_timeout, run_notified, close, data_size,
  log_buffer_size, flush_all, write_queue, start,
}
use my_rtsp_server.Log.Buffers.{
  Reach-IsFirstOnly, IsFirstOnly, appended_to, append-IsFirstOnly, appended_to-IsFirstOnly,
  run_timeout-IsFirstOnly, flush_all-IsFirstOnly, close-IsFirstOnly,
}
use my_rtsp_server.Log.Lines.{prefix_of, line_text, lines, Fits, log_message-put}
use my_rtsp_server.Log.Writing
use my_rtsp_server.Log.Writing.{
  Logger, Message, Written, wrote, stalls, crash, Step, message, timed_out, was_notified,
  set_log_file, set_log_level, open_log, appending, append_line, put_line, write, log_message,
  run_round, destroy, destroy_buffers, behind, outside, behind_timeout, terminated, run,
}

-- A log that writes to its file: `n` more bytes find room in the first buffer.
record IsLogging (level : LogLevel) (bytes : List ℕ) (n : ℕ) (l : Logger) : Type 0 where
  log : Log
  buffers : l.buffers ≡ some log
  first_only : IsFirstOnly bytes log
  file_only : l.is_std_out ≡ false
  logged : l.this_log_level ≡ level
  room : length (log.buffer 0).bytes + n < log_buffer_size

appended_to-room :
    (log_line : List ℕ) (n : ℕ) (log : Log)
    → length (log.buffer 0).bytes + (length log_line + n) < log_buffer_size
    → (ltb (length log_line) (avail (log.buffer 0)) ≡ true)
      × (length ((appended_to log_line log).buffer 0).bytes + n < log_buffer_size)
unfolding avail append_bytes
appended_to-room log_line n log h =
    let fits : ltb (length log_line) (avail (log.buffer 0)) ≡ true = ground arith in
    (fits, rw fits (omega (arith, h, length-append (log.buffer 0).bytes log_line)))

append_line-IsLogging :
    (level : LogLevel) (bytes log_line : List ℕ) (n : ℕ) (l : Logger)
    → IsLogging level bytes (length log_line + n) l
    → (l' : Logger) × (append_line log_line l.buffers l ≡ wrote l')
      × IsLogging level (bytes ++ log_line) n l'
append_line-IsLogging level bytes log_line n l v =
    let log' = appended_to log_line v.log in
    let (fits, more) = appended_to-room log_line n v.log v.room in
    (
      record l { buffers = some log' },
      ap (λ o. append_line log_line o l) v.buffers
          ∙ ap (λ r. appending r l) (append-IsFirstOnly bytes log_line v.log v.first_only),
      record {
        log = log';
        buffers = refl;
        first_only = rw fits at (appended_to-IsFirstOnly bytes log_line v.log v.first_only);
        file_only = v.file_only;
        logged = v.logged;
        room = more;
      },
    )

log_message-IsLogging :
    (level : LogLevel) (bytes : List ℕ) (n : ℕ) (m : Message) (l : Logger)
    → length (prefix_of m) < data_size
    → IsLogging level bytes (length (line_text level m) + n) l
    → (l' : Logger) × (log_message m l ≡ wrote l')
      × IsLogging level (bytes ++ line_text level m) n l'
unfolding put_line
log_message-IsLogging level bytes n m l f v =
    let said = print_more data_size (prefix_of m) m.text in
    let at_level = log_message-put level m l f v.logged in
    elim (Bool-cases (leb (rank m.log_level) (rank level))) [
      | inl e ↦
          let same : line_text level m ≡ said = ap (λ b. if b then said else []) e in
          let (l', done, v') =
            append_line-IsLogging level bytes said n l
              (subst (λ t. IsLogging level bytes (length t + n) l) same v) in
          (
            l',
            at_level ∙ rw (e, v.file_only) refl ∙ done,
            subst (λ t. IsLogging level (bytes ++ t) n l') (sym same) v',
          )
      | inr e ↦
          let none_more : 0 + n ≡ n = omega arith in
          let same : line_text level m ≡ [] = ap (λ b. if b then said else []) e in
          (
            l,
            at_level ∙ rw e refl,
            subst (λ t. IsLogging level t n l)
                (sym (append-nil bytes) ∙ ap (λ t. bytes ++ t) (sym same))
                (subst (λ k. IsLogging level bytes k l) (ap (λ t. length t + n) same ∙ none_more)
                  v),
          )
    ]

run_timeout-length :
    (log : Log)
    → log.cur_buffer ≡ 0
    → length ((run_timeout log).buffer 0).bytes ≤ length (log.buffer 0).bytes
unfolding run_timeout
run_timeout-length log first = elim (Bool-cases (length (log.buffer log.cur_buffer).bytes == 0)) [
  | inl e ↦ rw e (omega arith)
  | inr e ↦ rw e (simp first (omega arith))
]

flush_all-length :
    (log : Log)
    → log.flush_buffer_que ≡ []
    → length ((run_notified log).buffer 0).bytes ≡ length (log.buffer 0).bytes
unfolding run_notified flush_all
flush_all-length log flushed = ap (λ q. length ((flush_all q log).buffer 0).bytes) flushed

run_timeout-IsLogging :
    (level : LogLevel) (bytes : List ℕ) (n : ℕ) (l : Logger)
    → IsLogging level bytes n l
    → IsLogging level bytes n (run_round run_timeout l)
unfolding run_timeout
run_timeout-IsLogging level bytes n l v = record {
  log = run_timeout v.log;
  buffers = ap (Option.map run_timeout) v.buffers;
  first_only = run_timeout-IsFirstOnly bytes v.log v.first_only;
  file_only = v.file_only;
  logged = v.logged;
  room = omega (arith, run_timeout-length v.log v.first_only.first, v.room);
}

run_notified-IsLogging :
    (level : LogLevel) (bytes : List ℕ) (n : ℕ) (l : Logger)
    → IsLogging level bytes n l
    → IsLogging level bytes n (run_round run_notified l)
unfolding run_notified
run_notified-IsLogging level bytes n l v = record {
  log = run_notified v.log;
  buffers = ap (Option.map run_notified) v.buffers;
  first_only =
      flush_all-IsFirstOnly v.log.flush_buffer_que bytes v.log v.first_only.flushed v.first_only;
  file_only = v.file_only;
  logged = v.logged;
  room =
      subst (λ k. k + n < log_buffer_size) (sym (flush_all-length v.log v.first_only.flushed))
        v.room;
}

-- The state that a run ends in has all lines in the file.
run-lines :
    (level : LogLevel) (bytes : List ℕ) (steps : List Step) (l : Logger)
    → Fits steps
    → IsLogging level bytes (length (lines level steps)) l
    → (l' : Logger) × (run steps l ≡ wrote l')
      × ((log : Log) × (l'.buffers ≡ some log) × IsFirstOnly (bytes ++ lines level steps) log)
unfolding run lines Fits
run-lines level bytes [] l f v = (
  l,
  refl,
  (v.log, v.buffers, subst (λ b. IsFirstOnly b v.log) (sym (append-nil bytes)) v.first_only),
)
run-lines level bytes (message m ∷ steps) l (f, fs) v =
    let n = length (lines level steps) in
    let (l1, done, v1) = log_message-IsLogging level bytes n m l f (
      subst (λ k. IsLogging level bytes k l) (length-append (line_text level m) (lines level steps))
        v) in
    let (l', ran, (log, at, first)) = run-lines level (bytes ++ line_text level m) steps l1 fs v1 in
    (
      l',
      ap (λ w. elim w [ wrote l' ↦ run steps l' | stalls l' ↦ stalls l' | crash ↦ crash ]) done
          ∙ ran,
      (
        log,
        at,
        subst (λ b. IsFirstOnly b log) (append_assoc bytes (line_text level m) (lines level steps))
            first,
      ),
    )
run-lines level bytes (timed_out ∷ steps) l f v =
    run-lines level bytes steps (run_round run_timeout l) f
      (run_timeout-IsLogging level bytes (length (lines level steps)) l v)
run-lines level bytes (was_notified ∷ steps) l f v =
    run-lines level bytes steps (run_round run_notified l) f
      (run_notified-IsLogging level bytes (length (lines level steps)) l v)

-- The buffer in use is written twice.
close-behind :
    (bytes : List ℕ) (log : Log)
    → IsFirstOnly bytes log
    → close (behind behind_timeout log) ≡ bytes ++ (log.buffer log.cur_buffer).bytes
unfolding close write_queue
close-behind bytes log v =
    simp (v.flushed, v.first, append-nil) (ap (λ b. b ++ (log.buffer 0).bytes) v.held)

-- What a log with a file delivers. However the rounds of the writing thread, timed out or
-- notified, come between the messages, no message waits or faults. When the destructor then closes
-- the file and the thread is outside of its rounds, the file holds the lines of all messages whose
-- level is logged, in the order of the calls; where the thread stands behind the write of a round
-- that timed out, the file has the bytes of the buffer in use once more, behind these lines. Both
-- times the program ends with `std::terminate`, since the thread was not joined. The conditions:
-- the file could be opened and is not "/dev/stdout", the part of each line before its text is
-- shorter than the array of 4096 bytes, and all lines together are shorter than one buffer of 1
-- MiB.
pub open_log-destroy :
    (level : LogLevel) (file_name : List ℕ) (steps : List Step)
    → bytes_eq file_name (codes "/dev/stdout") ≡ false
    → Fits steps
    → length (lines level steps) < log_buffer_size
    → (l : Logger) × (l' : Logger) × (log : Log) × (open_log true
          (set_log_level level (set_log_file file_name Writing.new))
        ≡ some l)
      × (run steps l ≡ wrote l')
      × (l'.buffers ≡ some log)
      × (destroy outside l' ≡ terminated (lines level steps))
      × (destroy behind_timeout l'
          ≡ terminated (lines level steps ++ (log.buffer log.cur_buffer).bytes))
unfolding open_log set_log_file Writing.new init destroy
open_log-destroy level file_name steps other f room =
    let l0 = set_log_level level (set_log_file file_name Writing.new) in
    let l = record l0 { buffers = some init } in
    let (l', ran, (log, at, first)) = run-lines level [] steps l f (record {
      log = init;
      buffers = refl;
      first_only = Reach-IsFirstOnly start;
      file_only = other;
      logged = refl;
      room = omega (arith, room);
    }) in
    (
      l,
      l',
      log,
      refl,
      ran,
      at,
      ap (destroy_buffers outside) at
          ∙ ap terminated (close-IsFirstOnly (lines level steps) log first),
      ap (destroy_buffers behind_timeout) at
          ∙ ap terminated (close-behind (lines level steps) log first),
    )
