-- ===== src/Log/Buffers.antt =====
-- How the log uses its buffers.
use my_rtsp_server.Prelude.{
  ℕ, ◌-◌, ◌≤◌, ◌<◌, ◌≡◌, refl, subst, sym, ap, ◌∙◌, false, List, [], ◌∷◌, ◌++◌, append_assoc,
  append-nil, arith, Bool-cases, le→ltb, inl, inr, ltb, ◌==◌, if◌then◌else◌, length, length-append,
}
use my_rtsp_server.Log.{
  LogBuffer, avail, append_bytes, Log, init, put_buffer, ended, waits, append, run_timeout,
  flush_all, run_notified, close, write_queue, log_buffer_size, Reach, start, appended, blocked,
  timeout, notified,
}

-- Only the first buffer is used, it is never full, and it holds what is not in the file.
pub record IsFirstOnly (bytes : List ℕ) (log : Log) : Type 0 where
  pub first : log.cur_buffer ≡ 0
  pub free : log.free_buffer_que ≡ 0 ∷ 1 ∷ 2 ∷ 3 ∷ []
  pub flushed : log.flush_buffer_que ≡ []
  pub room : length (log.buffer 0).bytes < log_buffer_size
  pub held : log.file ++ (log.buffer 0).bytes ≡ bytes

append_bytes_room :
    (buf : List ℕ) (b : LogBuffer)
    → length b.bytes < log_buffer_size
    → length (append_bytes buf b).bytes < log_buffer_size
unfolding append_bytes avail
append_bytes_room buf b h = ground (arith, length-append b.bytes buf)

-- A line goes to the first buffer, or nowhere.
abbrev pub appended_to : List ℕ → Log → Log
appended_to log_line log = record log {
  buffer = put_buffer 0 (append_bytes log_line (log.buffer 0)) log.buffer;
}

pub append-IsFirstOnly :
    (bytes log_line : List ℕ) (log : Log)
    → IsFirstOnly bytes log
    → append log_line log ≡ ended (appended_to log_line log)
unfolding append avail
append-IsFirstOnly bytes log_line log v = simp (v.first, not_full) refl
  where
    not_full : ((log_buffer_size - length (log.buffer 0).bytes) == 0) ≡ false
    not_full = ground (arith, v.room)

pub appended_to-IsFirstOnly :
    (bytes log_line : List ℕ) (log : Log)
    → IsFirstOnly bytes log
    → IsFirstOnly
        (if ltb (length log_line) (avail (log.buffer 0)) then bytes ++ log_line else bytes)
        (appended_to log_line log)
unfolding append_bytes avail
appended_to-IsFirstOnly bytes log_line log v =
    elim (Bool-cases (ltb (length log_line) (avail (log.buffer 0)))) [
      | inl e ↦ rw e (record {
        first = v.first;
        free = v.free;
        flushed = v.flushed;
        room = rw e at (append_bytes_room log_line (log.buffer 0) v.room);
        held =
            sym (append_assoc log.file (log.buffer 0).bytes log_line)
            ∙ ap (λ l. l ++ log_line) v.held;
      })
      | inr e ↦ rw e (record {
        first = v.first;
        free = v.free;
        flushed = v.flushed;
        room = rw e at (append_bytes_room log_line (log.buffer 0) v.room);
        held = v.held;
      })
    ]

pub run_timeout-IsFirstOnly :
    (bytes : List ℕ) (log : Log) → IsFirstOnly bytes log → IsFirstOnly bytes (run_timeout log)
unfolding run_timeout
run_timeout-IsFirstOnly bytes log v =
    elim (Bool-cases (length (log.buffer log.cur_buffer).bytes == 0)) [
      | inl e ↦ rw e v
      | inr e ↦ rw e (record {
        first = v.first;
        free = v.free;
        flushed = v.flushed;
        room = simp v.first (omega arith);
        held = simp (v.first, append-nil) v.held;
      })
    ]

pub flush_all-IsFirstOnly :
    (que bytes : List ℕ) (log : Log)
    → que ≡ []
    → IsFirstOnly bytes log
    → IsFirstOnly bytes (flush_all que log)
unfolding flush_all
flush_all-IsFirstOnly [] bytes log e v = record {
  first = v.first;
  free = v.free;
  flushed = refl;
  room = v.room;
  held = v.held;
}
flush_all-IsFirstOnly (p ∷ ps) bytes log e v = cc

not_waits :
    (bytes log_line : List ℕ) (log log' : Log)
    → IsFirstOnly bytes log
    → ¬ (append log_line log ≡ waits log')
not_waits bytes log_line log log' v e = let h = append-IsFirstOnly bytes log_line log v in cc

pub Reach-IsFirstOnly : {bytes : List ℕ} {log : Log} → Reach bytes log → IsFirstOnly bytes log
unfolding init run_notified
Reach-IsFirstOnly start = record {
  first = refl;
  free = refl;
  flushed = refl;
  room = omega arith;
  held = refl;
}
Reach-IsFirstOnly (appended {bytes = bytes} {log = log} {log' = log'} log_line r e) =
    let v = Reach-IsFirstOnly r in
    let h = append-IsFirstOnly bytes log_line log v in
    let same : log' ≡ appended_to log_line log = cc in
    subst
      (λ i.
        IsFirstOnly
          (if ltb (length log_line) (avail (log.buffer i)) then bytes ++ log_line else bytes) log')
      (sym v.first)
      (subst
        (IsFirstOnly
          (if ltb (length log_line) (avail (log.buffer 0)) then bytes ++ log_line else bytes))
        (sym same) (appended_to-IsFirstOnly bytes log_line log v))
Reach-IsFirstOnly (blocked {bytes = bytes} {log = log} {log' = log'} log_line r e) =
    absurd (not_waits bytes log_line log log' (Reach-IsFirstOnly r) e)
Reach-IsFirstOnly (timeout {bytes = bytes} {log = log} r) =
    run_timeout-IsFirstOnly bytes log (Reach-IsFirstOnly r)
Reach-IsFirstOnly (notified {bytes = bytes} {log = log} r) =
    flush_all-IsFirstOnly log.flush_buffer_que bytes log (Reach-IsFirstOnly r).flushed
      (Reach-IsFirstOnly r)

-- In every state that the log can be in, the first of the four buffers is in use and all four are
-- still listed as free, and a line never fills it, waits or changes to another buffer: it goes to
-- the first buffer, where there is room, or is dropped.
pub append_one_buffer :
    {bytes : List ℕ} {log : Log} (log_line : List ℕ)
    → Reach bytes log
    → (log.free_buffer_que ≡ 0 ∷ 1 ∷ 2 ∷ 3 ∷ [])
      × (log.cur_buffer ≡ 0)
      × (append log_line log
          ≡ ended (record log {
            buffer = put_buffer 0 (append_bytes log_line (log.buffer 0)) log.buffer;
          }))
append_one_buffer {bytes} {log} log_line r =
    let v = Reach-IsFirstOnly r in (v.free, v.first, append-IsFirstOnly bytes log_line log v)

pub close-IsFirstOnly : (bytes : List ℕ) (log : Log) → IsFirstOnly bytes log → close log ≡ bytes
unfolding close write_queue
close-IsFirstOnly bytes log v = simp (v.flushed, v.first, append-nil) v.held

-- When the log is closed, the file holds exactly the lines that found room, in the order of the
-- calls.
pub close_lem : {bytes : List ℕ} {log : Log} → Reach bytes log → close log ≡ bytes
close_lem {bytes} {log} r = close-IsFirstOnly bytes log (Reach-IsFirstOnly r)

-- A line for which the buffer has no room is lost, and nothing tells the caller.
append_drops :
    {bytes : List ℕ} {log : Log} (log_line : List ℕ)
    → Reach bytes log
    → avail (log.buffer log.cur_buffer) ≤ length log_line
    → (log' : Log) × (append log_line log ≡ ended log') × (close log' ≡ close log)
append_drops {bytes} {log} log_line r h =
    let v = Reach-IsFirstOnly r in
    let done = append-IsFirstOnly bytes log_line log v in
    let kept = close_lem (appended log_line r done) in
    (
      appended_to log_line log,
      done,
      kept ∙ ap (λ b. if b then bytes ++ log_line else bytes) (le→ltb _ _ h) ∙ sym (close_lem r),
    )
