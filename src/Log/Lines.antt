-- ===== src/Log/Lines.antt =====
-- The lines that the messages of a run come to.
use my_rtsp_server.Prelude.{
  ℕ, ◌<◌, ◌≡◌, refl, ap, ◌∙◌, true, false, inl, inr, Bool-cases, some, List, [], ◌∷◌, ◌++◌, leb,
  ltb, lt→ltb, if◌then◌else◌, length, arith,
}
use my_rtsp_server.Prelude.Text.{print_more}
use my_rtsp_server.Log.{LogLevel, rank, prefix, data_size, line_of}
use my_rtsp_server.Log.Writing.{
  Logger, Message, wrote, Step, message, timed_out, was_notified, put_line, write, log_message,
}

abbrev pub prefix_of : Message → List ℕ
prefix_of m = prefix m.log_level m.now m.file m.func m.line

-- The line of a message, where its level is logged.
abbrev pub line_text : LogLevel → Message → List ℕ
line_text level m =
    if leb (rank m.log_level) (rank level) then print_more data_size (prefix_of m) m.text else []

unfoldable pub lines : LogLevel → List Step → List ℕ
lines level [] = []
lines level (message m ∷ steps) = line_text level m ++ lines level steps
lines level (timed_out ∷ steps) = lines level steps
lines level (was_notified ∷ steps) = lines level steps

-- The part of each line before its text is shorter than the array for the line.
unfoldable pub Fits : List Step → Type 0
Fits [] = Unit {0}
Fits (message m ∷ steps) = (length (prefix_of m) < data_size) × Fits steps
Fits (timed_out ∷ steps) = Fits steps
Fits (was_notified ∷ steps) = Fits steps

line_of-logged :
    (level : LogLevel) (m : Message)
    → leb (rank m.log_level) (rank level) ≡ true
    → length (prefix_of m) < data_size
    → line_of level m.log_level m.now m.file m.func m.line m.text
      ≡ some (some (print_more data_size (prefix_of m) m.text))
unfolding line_of
line_of-logged level m h f =
    let logged : ltb (rank level) (rank m.log_level) ≡ false = ground (arith, h) in
    simp (logged, lt→ltb (length (prefix_of m)) data_size f) refl

pub log_message-put :
    (level : LogLevel) (m : Message) (l : Logger)
    → length (prefix_of m) < data_size
    → l.this_log_level ≡ level
    → log_message m l ≡ (
        if leb (rank m.log_level) (rank level)
        then put_line (some (some (print_more data_size (prefix_of m) m.text))) l
        else wrote l)
unfolding log_message write
log_message-put level m l f same =
    ap
      (λ lv.
        if leb (rank m.log_level) (rank lv)
        then put_line (line_of lv m.log_level m.now m.file m.func m.line m.text) l
        else wrote l)
      same
    ∙ elim (Bool-cases (leb (rank m.log_level) (rank level))) [
      | inl e ↦ rw (e, line_of-logged level m e f) refl
      | inr e ↦ rw e refl
    ]
