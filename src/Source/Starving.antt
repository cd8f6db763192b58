-- ===== src/Source/Starving.antt =====
-- The tasks of a source and its frames: what a read that fails costs.
use my_rtsp_server.Prelude.{
  ℕ, suc, ◌+◌, ◌-◌, ◌≤◌, ◌<◌, ◌≡◌, ◌⊎◌, refl, ap, Bool, Option, none, some, List, [], ◌∷◌,
  if◌then◌else◌, ◌==◌, Option-cases, List-cases, inl, inr, length, length-append, arith,
}
use my_rtsp_server.Rtp.{AvFrame}
use my_rtsp_server.Source.{
  MediaSource, Seek, new, get_frame, put_frame, read_frame, read_front, finish_frame,
  get_frame_from_h264_file, start_code3,
}
use my_rtsp_server.Source.Creation.{add_tasks, default_frame_num}

-- The read took no frame out of the input queue.
abbrev pub is_left : MediaSource → MediaSource → Bool
is_left s s' = length s'.input_que == length s.input_que

-- A source from its constructor on, the frames that a sink has taken, how many of its tasks have
-- run, and how many of these left their frame in the input queue. A read is a task that was given
-- to the pool and has not run.
pub data Served : MediaSource → List ℕ → ℕ → ℕ → Type 0 where
  start : (av_frames : ℕ → AvFrame) → Served (add_tasks default_frame_num (new av_frames)) [] 0 0
  reads :
      {s s' : MediaSource} {held : List ℕ} {ran failed : ℕ} {seek : Seek}
      (received : Option (List ℕ))
      → Served s held ran failed
      → ran < s.tasks
      → read_frame received s ≡ some (seek, s')
      → Served s' held (suc ran) (if is_left s s' then suc failed else failed)
  takes :
      {s s' : MediaSource} {held : List ℕ} {ran failed : ℕ} (p : ℕ)
      → Served s held ran failed
      → get_frame s ≡ (some p, s')
      → Served s' (p ∷ held) ran failed
  gives :
      {s : MediaSource} {held : List ℕ} {ran failed : ℕ} (p : ℕ)
      → Served s (p ∷ held) ran failed
      → Served (put_frame p s) held ran failed

-- A read leaves the queues as they are, or moves a frame from the one to the other.
abbrev Moved : MediaSource → MediaSource → Type 0
Moved s s' =
    (s'.tasks ≡ s.tasks)
    × (((length s'.input_que ≡ length s.input_que) × (length s'.output_que ≡ length s.output_que))
        ⊎ ((length s.input_que ≡ suc (length s'.input_que))
            × (length s'.output_que ≡ suc (length s.output_que))))

finish_frame-Moved :
    (result : Option ℕ) (seek seek' : Seek) (block : List ℕ) (q : ℕ) (qs : List ℕ)
    (s s' : MediaSource)
    → s.input_que ≡ q ∷ qs
    → finish_frame result seek block q qs s ≡ some (seek', s')
    → Moved s s'
unfolding finish_frame
finish_frame-Moved none seek seek' block q qs s s' e f = ground arith
finish_frame-Moved (some n) seek seek' block q qs s s' e f =
    elim (Option-cases (start_code3 block)) [
      | inl lost ↦ let left = rw lost at f in cc
      | inr (three, k) ↦
          let left = rw k at f in
          ground (arith, ap (length {A = ℕ}) e, length-append s.output_que (q ∷ []))
    ]

read_front-Moved :
    (que : List ℕ) (received : Option (List ℕ)) (s s' : MediaSource) (seek : Seek)
    → s.input_que ≡ que
    → read_front que received s ≡ some (seek, s')
    → Moved s s'
unfolding read_front
read_front-Moved [] received s s' seek e f = ground arith
read_front-Moved (q ∷ qs) received s s' seek e f =
    elim (Option-cases (get_frame_from_h264_file received (s.av_frames q).block)) [
      | inl lost ↦ let left = rw lost at f in cc
      | inr (read, k) ↦
          finish_frame-Moved read.0.size read.0.seek seek read.1 q qs s s' e (rw k at f)
    ]

get_frame-lengths :
    (s s' : MediaSource) (q : ℕ)
    → get_frame s ≡ (some q, s')
    → (s'.tasks ≡ s.tasks)
      × (length s'.input_que ≡ length s.input_que)
      × (length s.output_que ≡ suc (length s'.output_que))
unfolding get_frame
get_frame-lengths s s' q e = elim (List-cases s.output_que) [
  | inl k ↦ let left = rw k at e in ground arith
  | inr (x, xs, k) ↦ let left = rw k at e in ground (arith, ap (length {A = ℕ}) k)
]

record IsServed (s : MediaSource) (held : List ℕ) (ran failed : ℕ) : Type 0 where
  given : ran ≤ s.tasks
  unread : length s.input_que + ran ≡ s.tasks + failed
  frames : length s.input_que + length s.output_que + length held ≡ default_frame_num

Served-IsServed :
    {s : MediaSource} {held : List ℕ} {ran failed : ℕ}
    → Served s held ran failed
    → IsServed s held ran failed
unfolding new put_frame add_tasks
Served-IsServed (start av_frames) = record { given = omega arith; unread = refl; frames = refl }
Served-IsServed (reads {s = s} {s' = s'} {seek = seek} received r h e) =
    let v = Served-IsServed r in
    let (same, moved) = read_front-Moved s.input_que received s s' seek refl e in
    record {
      given = omega (arith, same, h);
      unread = ground (arith, v.unread, moved, same);
      frames = ground (arith, v.frames, moved);
    }
Served-IsServed (takes {s = s} {s' = s'} q r e) =
    let v = Served-IsServed r in
    let (same, unread, taken) = get_frame-lengths s s' q e in
    record {
      given = omega (arith, v.given, same);
      unread = omega (arith, v.unread, same, unread);
      frames = omega (arith, v.frames, unread, taken);
    }
Served-IsServed (gives {s = s} q r) =
    let v = Served-IsServed r in
    let more = length-append s.input_que (q ∷ []) in
    record {
      given = omega (arith, v.given);
      unread = omega (arith, v.unread, more);
      frames = omega (arith, v.frames, more);
    }

-- However the tasks of an H.264 source and its sink come one after another, the tasks that are
-- still to run, the frames that are ready and the frames that the sink has are together four, less
-- one for each read that failed: no task is given for a frame that a failed read leaves in the
-- input queue, so that after four such reads nothing is read any more. As many tasks have run as
-- were given, or fewer.
pub Served-starves :
    {s : MediaSource} {held : List ℕ} {ran failed : ℕ}
    → Served s held ran failed
    → (ran ≤ s.tasks)
      × ((s.tasks - ran) + length s.output_que + length held + failed ≡ default_frame_num)
Served-starves r =
    let v = Served-IsServed r in (v.given, omega (arith, v.given, v.unread, v.frames))
