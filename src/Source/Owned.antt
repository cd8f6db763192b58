-- ===== src/Source/Owned.antt =====
-- Who may use a frame: at each time one of the input queue, the output queue and the sink has it.
use my_rtsp_server.Prelude.{
  ℕ, ◌+◌, ◌≡◌, refl, ap, ◌∙◌, Option, none, some, List, [], ◌∷◌, if◌then◌else◌, Option-cases,
  List-cases, inl, inr, ltb, arith,
}
use my_rtsp_server.Rtp.{AvFrame}
use my_rtsp_server.Source.{
  MediaSource, Seek, new, get_frame, put_frame, read_frame, read_front, finish_frame,
  get_frame_from_h264_file, start_code3,
}
use my_rtsp_server.Source.Queues.{count, count-append}

-- A source and the frames that a sink has taken out of it. Each operation holds the mutex: a task
-- of the pool reads, the loop's thread takes a frame and gives it back.
pub data Reach : MediaSource → List ℕ → Type 0 where
  start : (av_frames : ℕ → AvFrame) → Reach (new av_frames) []
  reads :
      {s s' : MediaSource} {held : List ℕ} {seek : Seek} (received : Option (List ℕ))
      → Reach s held
      → read_frame received s ≡ some (seek, s')
      → Reach s' held
  takes :
      {s s' : MediaSource} {held : List ℕ} (p : ℕ)
      → Reach s held
      → get_frame s ≡ (some p, s')
      → Reach s' (p ∷ held)
  gives :
      {s : MediaSource} {held : List ℕ} (p : ℕ) → Reach s (p ∷ held) → Reach (put_frame p s) held

abbrev pub owners : ℕ → MediaSource → List ℕ → ℕ
owners p s held = count p s.input_que + count p s.output_que + count p held

finish_frame-owners :
    (result : Option ℕ) (seek seek' : Seek) (block : List ℕ) (q : ℕ) (qs : List ℕ)
    (s s' : MediaSource) (p : ℕ) (held : List ℕ)
    → s.input_que ≡ q ∷ qs
    → finish_frame result seek block q qs s ≡ some (seek', s')
    → owners p s' held ≡ owners p s held
unfolding finish_frame
finish_frame-owners none seek seek' block q qs s s' p held e f = ground arith
finish_frame-owners (some n) seek seek' block q qs s s' p held e f =
    elim (Option-cases (start_code3 block)) [
      | inl lost ↦ let left = rw lost at f in cc
      | inr (three, k) ↦
          let left = rw k at f in
          ground (arith, ap (count p) e, count-append p s.output_que (q ∷ []))
    ]

read_front-owners :
    (que : List ℕ) (received : Option (List ℕ)) (s s' : MediaSource) (seek : Seek) (p : ℕ)
    (held : List ℕ)
    → s.input_que ≡ que
    → read_front que received s ≡ some (seek, s')
    → owners p s' held ≡ owners p s held
unfolding read_front
read_front-owners [] received s s' seek p held e f = ground arith
read_front-owners (q ∷ qs) received s s' seek p held e f =
    elim (Option-cases (get_frame_from_h264_file received (s.av_frames q).block)) [
      | inl lost ↦ let left = rw lost at f in cc
      | inr (read, k) ↦
          finish_frame-owners read.0.size read.0.seek seek read.1 q qs s s' p held e (rw k at f)
    ]

get_frame-owners :
    (s s' : MediaSource) (q p : ℕ) (held : List ℕ)
    → get_frame s ≡ (some q, s')
    → owners p s' (q ∷ held) ≡ owners p s held
unfolding get_frame
get_frame-owners s s' q p held e = elim (List-cases s.output_que) [
  | inl k ↦ let left = rw k at e in ground arith
  | inr (x, xs, k) ↦ let left = rw k at e in ground (arith, ap (count p) k)
]

-- However the tasks that read, and the sink that takes and gives back frames, come one after
-- another, each of the source's four frames is in exactly one place at a time: once in the input
-- queue, the output queue or the hands of the sink. No other pointer is in any of them.
pub Reach-owners :
    {s : MediaSource} {held : List ℕ} (p : ℕ)
    → Reach s held
    → owners p s held ≡ (if ltb p 4 then 1 else 0)
unfolding new put_frame
Reach-owners p (start av_frames) = ground arith
Reach-owners p (reads {s = s} {s' = s'} {held = held} {seek = seek} received r e) =
    read_front-owners s.input_que received s s' seek p held refl e ∙ Reach-owners p r
Reach-owners p (takes {s = s} {s' = s'} {held = held} q r e) =
    get_frame-owners s s' q p held e ∙ Reach-owners p r
Reach-owners p (gives {s = s} {held = held} q r) =
    omega (arith, Reach-owners p r, count-append p s.input_que (q ∷ []))
