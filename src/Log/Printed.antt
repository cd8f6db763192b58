-- ===== src/Log/Printed.antt =====
-- What becomes of the messages of a log that writes to the terminal.
use mathlib.Core.Option
use my_rtsp_server.Prelude.{
  ℕ, ◌<◌, ◌≡◌, refl, sym, ap, ◌∙◌, true, inl, inr, Bool-cases, none, List, [], ◌∷◌, ◌++◌,
  append_assoc, append-nil, leb, if◌then◌else◌, length,
}
use my_rtsp_server.Prelude.Text.{print_more}
use my_rtsp_server.Log.{Log, LogLevel, rank, data_size, run_timeout, run_notified}
use my_rtsp_server.Log.Lines.{prefix_of, line_text, lines, Fits, log_message-put}
use my_rtsp_server.Log.Writing
use my_rtsp_server.Log.Writing.{
  Logger, Message, Written, wrote, stalls, crash, Step, message, timed_out, was_notified,
  set_log_level, put_line, log_message, run_round, destroy, destroy_buffers, Position, no_buffer,
  run,
}

-- A log that writes to the terminal, and has no buffer.
record IsPrinting (level : LogLevel) (bytes : List ℕ) (l : Logger) : Type 0 where
  unopened : l.buffers ≡ none
  terminal : l.is_std_out ≡ true
  logged : l.this_log_level ≡ level
  said : l.printed ≡ bytes

log_message-IsPrinting :
    (level : LogLevel) (bytes : List ℕ) (m : Message) (l : Logger)
    → length (prefix_of m) < data_size
    → IsPrinting level bytes l
    → (l' : Logger) × (log_message m l ≡ wrote l')
      × IsPrinting level (bytes ++ line_text level m) l'
unfolding put_line
log_message-IsPrinting level bytes m l f v =
    let text = print_more data_size (prefix_of m) m.text in
    let put = log_message-put level m l f v.logged in
    elim (Bool-cases (leb (rank m.log_level) (rank level))) [
      | inl e ↦
          let same : line_text level m ≡ text = ap (λ b. if b then text else []) e in
          (
            record l { printed = l.printed ++ text },
            put ∙ rw (e, v.terminal) refl,
            record {
              unopened = v.unopened;
              terminal = v.terminal;
              logged = v.logged;
              said = ap (λ t. t ++ text) v.said ∙ ap (λ t. bytes ++ t) (sym same);
            },
          )
      | inr e ↦
          let same : line_text level m ≡ [] = ap (λ b. if b then text else []) e in
          (
            l,
            put ∙ rw e refl,
            record {
              unopened = v.unopened;
              terminal = v.terminal;
              logged = v.logged;
              said = v.said ∙ sym (append-nil bytes) ∙ ap (λ t. bytes ++ t) (sym same);
            },
          )
    ]

run_round-IsPrinting :
    (round : Log → Log) (level : LogLevel) (bytes : List ℕ) (l : Logger)
    → IsPrinting level bytes l
    → IsPrinting level bytes (run_round round l)
run_round-IsPrinting round level bytes l v = record {
  unopened = ap (Option.map round) v.unopened;
  terminal = v.terminal;
  logged = v.logged;
  said = v.said;
}

run-IsPrinting :
    (level : LogLevel) (bytes : List ℕ) (steps : List Step) (l : Logger)
    → Fits steps
    → IsPrinting level bytes l
    → (l' : Logger) × (run steps l ≡ wrote l') × IsPrinting level (bytes ++ lines level steps) l'
unfolding run lines Fits
run-IsPrinting level bytes [] l f v = (
  l,
  refl,
  record {
    unopened = v.unopened;
    terminal = v.terminal;
    logged = v.logged;
    said = v.said ∙ sym (append-nil bytes);
  },
)
run-IsPrinting level bytes (message m ∷ steps) l (f, fs) v =
    let (l1, done, v1) = log_message-IsPrinting level bytes m l f v in
    let (l', ran, v') = run-IsPrinting level (bytes ++ line_text level m) steps l1 fs v1 in
    (
      l',
      ap (λ w. elim w [ wrote l' ↦ run steps l' | stalls l' ↦ stalls l' | crash ↦ crash ]) done
          ∙ ran,
      record {
        unopened = v'.unopened;
        terminal = v'.terminal;
        logged = v'.logged;
        said = v'.said ∙ append_assoc bytes (line_text level m) (lines level steps);
      },
    )
run-IsPrinting level bytes (timed_out ∷ steps) l f v =
    run-IsPrinting level bytes steps (run_round run_timeout l) f
      (run_round-IsPrinting run_timeout level bytes l v)
run-IsPrinting level bytes (was_notified ∷ steps) l f v =
    run-IsPrinting level bytes steps (run_round run_notified l) f
      (run_round-IsPrinting run_notified level bytes l v)

-- The program does not call `Init`. Then the terminal gets the lines of all messages whose level is
-- logged, in the order of the calls, and the destructor finds no buffer in use. The condition: the
-- part of each line before its text is shorter than the array of 4096 bytes.
pub set_log_level-printed :
    (level : LogLevel) (steps : List Step) (position : Position)
    → Fits steps
    → (l : Logger) × (run steps (set_log_level level Writing.new) ≡ wrote l)
      × (l.printed ≡ lines level steps)
      × (destroy position l ≡ no_buffer)
unfolding Writing.new destroy
set_log_level-printed level steps position f =
    let (l, ran, v) =
      run-IsPrinting level [] steps (set_log_level level Writing.new) f
        (record { unopened = refl; terminal = refl; logged = refl; said = refl }) in
    (l, ran, v.said, ap (destroy_buffers position) v.unopened)
