-- ===== src/Source/Delivery/Pipeline.antt =====
-- A frame of an H.264 file on its way into a packet: `ReadFrame` of src/net/h264media_source.cpp,
-- `TimeoutCallback` of include/net/rtpsink.h, and `HandleFrame` of src/net/h264rtp_sink.cpp.
use my_rtsp_server.Prelude.{
  ℕ, zero, suc, ◌+◌, ◌-◌, ◌^◌, ◌≤◌, ◌<◌, ◌≡◌, refl, sym, ap, subst, ◌∙◌, Bool, true, some, List, [],
  ◌∷◌, ◌++◌, arith, if◌then◌else◌, ◌>>=◌, ==_iff, sub32, sub32-sub, length, drop, slice, slice-take,
  take-append_left, overwrite, length-overwrite, get_elem?, Returns, Returns-map,
}
use my_rtsp_server.Rtp.{AvFrame, Datagram, rtp_max_pkt_size, header_of}
use my_rtsp_server.Rtp.H264.{H264RtpSink, handle_frame}
use my_rtsp_server.Rtp.H264.Fragments.{IsReady}
use my_rtsp_server.Rtp.H264.Sent.{sent_since}
use my_rtsp_server.Rtp.H264.Frames.{handle_frame_short}
use my_rtsp_server.Source.{
  MediaSource, start_code3, any_start_code, Seek, back, get_frame_from_h264_file, read_front,
  finish_frame, read_frame, set_frame,
}
use my_rtsp_server.Source.Cut.{
  IsNext, any_start_code-append, IsNext-append, overwrite_front, cut_frame-next, matches-append,
  drop-append, length-drop,
}
use my_rtsp_server.Source.Delivery.{timeout_callback}
use my_rtsp_server.Source.Delivery.Frames.{timeout_callback_lem}

get_elem?-below : (l : List ℕ) (i : ℕ) → i < length l → (x : ℕ) × (get_elem? l i ≡ some x)
get_elem?-below [] i h = absurd (omega arith)
get_elem?-below (x ∷ l) zero h = (x, refl)
get_elem?-below (x ∷ l) (suc i) h = get_elem?-below l i (omega arith)

-- The bytes that a read gave hold a frame: they begin with a start code of `skip` bytes, and the
-- next one stands `n` bytes behind the third byte.
pub record HoldsFrame (skip n : ℕ) (three : Bool) (bytes : List ℕ) : Type 0 where
  pub is_three : start_code3 bytes ≡ some three
  pub skips : skip ≡ (if three then 3 else 4)
  pub begins : any_start_code bytes ≡ some true
  pub next : IsNext n (drop 3 bytes)
  pub filled_in : skip < 3 + n
  pub whole : n + 7 ≤ length bytes
  pub small : length bytes < 2 ^ 31

-- The packet with the frame.
abbrev pub frame_packet : ℕ → ℕ → List ℕ → H264RtpSink → List Datagram
frame_packet skip n bytes h =
    record { header = header_of h.sink; body = slice skip (3 + n - skip) bytes } ∷ []

module _ (skip n : ℕ) (three : Bool) (bytes block : List ℕ) (v : HoldsFrame skip n three bytes)
    (room : length bytes ≤ length block) where
  -- The block behind the read.
  abbrev filled : List ℕ
  filled = overwrite block 0 bytes

  filled_front : filled ≡ bytes ++ drop (length bytes) block
  filled_front = overwrite_front block bytes room

  file_frame :
      get_frame_from_h264_file (some bytes) block
      ≡ some (record { size = some (3 + n); seek = back (length bytes - (3 + n)) }, filled)
  unfolding get_frame_from_h264_file
  file_frame =
      let rest = drop (length bytes) block in
      let begins : any_start_code filled ≡ some true =
        ap any_start_code filled_front
        ∙ any_start_code-append bytes rest (omega (arith, v.whole))
        ∙ v.begins in
      let next : IsNext n (drop 3 filled) =
        subst (λ l. IsNext n (drop 3 l)) (sym filled_front)
          (subst (IsNext n) (sym (drop-append 3 bytes rest (omega (arith, v.whole)))) (
            IsNext-append n (drop 3 bytes) rest (omega (arith, v.whole, length-drop 3 bytes))
              v.next)) in
      rw (cut_frame-next (length bytes) n filled begins next v.whole v.small) refl

  -- The frame that the source then has.
  abbrev filled_frame : AvFrame
  filled_frame = record { block = filled; start = skip; frame_size = 3 + n - skip }

  finish_frame_lem :
      (p : ℕ) (ps : List ℕ) (seek : Seek) (s : MediaSource)
      → finish_frame (some (3 + n)) seek filled p ps s
        ≡ some (
          seek,
          record s {
            av_frames = set_frame p filled_frame s.av_frames;
            input_que = ps;
            output_que = s.output_que ++ (p ∷ []);
          },
        )
  unfolding finish_frame
  finish_frame_lem p ps seek s =
      let three_here : start_code3 filled ≡ some three =
        ap start_code3 filled_front
        ∙ matches-append (0 ∷ 0 ∷ 1 ∷ []) bytes (drop (length bytes) block) (omega (arith, v.whole))
        ∙ v.is_three in
      let below = v.small in
      let size : sub32 (3 + n) skip ≡ 3 + n - skip =
        sub32-sub (3 + n) skip (omega (arith, v.filled_in)) (omega (arith, v.whole)) in
      rw (three_here, sym v.skips, size) refl

  read_frame_lem :
      (p : ℕ) (ps : List ℕ) (s : MediaSource)
      → s.input_que ≡ p ∷ ps
      → (s.av_frames p).block ≡ block
      → read_frame (some bytes) s
        ≡ some (
          back (length bytes - (3 + n)),
          record s {
            av_frames = set_frame p filled_frame s.av_frames;
            input_que = ps;
            output_que = s.output_que ++ (p ∷ []);
          },
        )
  unfolding read_front
  read_frame_lem p ps s e b =
      ap (λ que. read_front que (some bytes) s) e
      ∙ ap
          (λ l. do
            (result, block') ← get_frame_from_h264_file (some bytes) l
            finish_frame result.size result.seek block' p ps s)
          b
      ∙ ap (λ o. do (result, block') ← o; finish_frame result.size result.seek block' p ps s)
          file_frame
      ∙ finish_frame_lem p ps (back (length bytes - (3 + n))) s

  body_slice : slice skip (3 + n - skip) filled ≡ slice skip (3 + n - skip) bytes
  body_slice =
      ap (slice skip (3 + n - skip)) filled_front
      ∙ sym (
          slice-take skip (3 + n - skip) (length bytes) (bytes ++ drop (length bytes) block)
            (omega (arith, v.filled_in, v.whole)))
      ∙ ap (slice skip (3 + n - skip)) (take-append_left bytes (drop (length bytes) block))

  sent_frame :
      (h : H264RtpSink)
      → IsReady h
      → 3 + n - skip ≤ rtp_max_pkt_size
      → Returns
          (λ h'. (sent_since h.sink h'.sink ≡ frame_packet skip n bytes h) × IsReady h')
          (handle_frame filled_frame h)
  sent_frame h r small =
      let inside = length-overwrite block 0 bytes in
      let (nalu, first_byte) =
        get_elem?-below filled skip (omega (arith, v.filled_in, v.whole, room)) in
      Returns-map (handle_frame filled_frame h)
        (λ h' q.
          (q.0 ∙ ap (λ b. record { header = header_of h.sink; body = b } ∷ []) body_slice, q.3))
        (handle_frame_short filled_frame h nalu r first_byte small
          (omega (arith, v.filled_in, v.whole, room)))

  -- The way of a frame from the file into a packet. The read gave `bytes`, which begin with a
  -- start code of `skip` bytes and hold the next one `n` bytes behind their third byte, at least
  -- four bytes before their end. Then `ReadFrame` asks to go back to that start code, and the next
  -- timeout of a ready sink sends one packet with exactly the bytes between the two codes, under
  -- the sink's header; the frame's buffer is back in the input queue behind the others, the output
  -- queue is empty, and the sink is ready again. The conditions: the input queue has a buffer at
  -- its front that holds the bytes, the output queue is empty, there are bytes between the codes,
  -- no more than 1400, and fewer than 2 ^ 31 bytes were read.
  pub read_frame-timeout_callback :
      (p : ℕ) (ps : List ℕ) (s : MediaSource) (h : H264RtpSink)
      → s.input_que ≡ p ∷ ps
      → s.output_que ≡ []
      → (s.av_frames p).block ≡ block
      → IsReady h
      → 3 + n - skip ≤ rtp_max_pkt_size
      → Returns
          (λ r.
            (r.0 ≡ back (length bytes - (3 + n)))
            × Returns
                (λ t.
                  (sent_since h.sink t.0.sink ≡ frame_packet skip n bytes h)
                  × IsReady t.0
                  × (t.1.input_que ≡ ps ++ (p ∷ []))
                  × (t.1.output_que ≡ []))
                (timeout_callback handle_frame h r.1))
          (read_frame (some bytes) s)
  read_frame-timeout_callback p ps s h e o b r small =
      let given = record s {
        av_frames = set_frame p filled_frame s.av_frames;
        input_que = ps;
        output_que = s.output_que ++ (p ∷ []);
      } in
      let front : given.av_frames p ≡ filled_frame = rw ((==_iff p p).1 refl) refl in
      let sends =
        subst
          (λ f.
            Returns (λ h'. (sent_since h.sink h'.sink ≡ frame_packet skip n bytes h) × IsReady h')
              (handle_frame f h))
          (sym front) (sent_frame h r small) in
      let delivered =
        timeout_callback_lem handle_frame
          (λ h'. (sent_since h.sink h'.sink ≡ frame_packet skip n bytes h) × IsReady h') p 0 [] h
          given (ap (λ l. l ++ (p ∷ [])) o) sends in
      subst
        (Returns (λ r.
          (r.0 ≡ back (length bytes - (3 + n)))
          × Returns
              (λ t.
                (sent_since h.sink t.0.sink ≡ frame_packet skip n bytes h)
                × IsReady t.0
                × (t.1.input_que ≡ ps ++ (p ∷ []))
                × (t.1.output_que ≡ []))
              (timeout_callback handle_frame h r.1)))
        (sym (read_frame_lem p ps s e b))
        (
          refl,
          Returns-map (timeout_callback handle_frame h given) (λ t q. (q.0.0, q.0.1, q.2, q.1))
              delivered,
        )
