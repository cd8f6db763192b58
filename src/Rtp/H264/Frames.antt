-- ===== src/Rtp/H264/Frames.antt =====
-- What `H264RtpSink::HandleFrame` sends for a frame in one packet, and for one in fragments.
use mathlib.Core.List.{flatten, map-append}
use my_rtsp_server.Prelude.{
  ℕ, zero, suc, ◌+◌, ◌-◌, ◌*◌, ◌/◌, ◌%◌, ◌≤◌, ◌<◌, ◌≡◌, refl, sym, ap, ap₂, ◌∙◌, some, List, [],
  ◌∷◌, ◌++◌, arith, ltb, le→leb, gt→leb, map, if◌then◌else◌, Returns, Returns-map, length, drop,
  slice, get_elem?, length-append, append_assoc, append-nil, slice-add, Bool-cases, inl, inr,
}
use my_rtsp_server.Rtp.{AvFrame, RtpSink, header_of, next_seq, rtp_max_pkt_size}
use my_rtsp_server.Rtp.H264.{
  H264RtpSink, fu_indicator, fu_header, send_whole, send_fragments, handle_frame,
}
use my_rtsp_server.Rtp.H264.Fragments.{
  IsReady, Handled, is_parameter_set, next_stamp, loop_bodies, last_bodies, fragment_bodies,
  send_whole-Handled, send_fragments-Handled,
}
use my_rtsp_server.Rtp.H264.Sent.{
  bodies-numbered, reassembled, sent_since, Handled-sent, length-numbered, Handled-IsReady,
}

flatten-append : (xs ys : List (List ℕ)) → flatten (xs ++ ys) ≡ flatten xs ++ flatten ys
unfolding flatten
flatten-append [] ys = refl
flatten-append (x ∷ xs) ys =
    ap (◌++◌ x) (flatten-append xs ys) ∙ sym (append_assoc x (flatten xs) (flatten ys))

loop_bodies_flat :
    (f : AvFrame) (second : ℕ → ℕ) (first n i pos : ℕ)
    → flatten (map (drop 2) (loop_bodies f second first n i pos))
      ≡ slice (f.start + pos) (n * rtp_max_pkt_size) f.block
unfolding flatten
loop_bodies_flat f second first zero i pos = refl
loop_bodies_flat f second first (suc n) i pos =
    ap (◌++◌ (slice (f.start + pos) rtp_max_pkt_size f.block))
      (loop_bodies_flat f second first n (i + 1) (pos + rtp_max_pkt_size))
    ∙ sym (
        slice-add (f.start + pos) rtp_max_pkt_size (n * rtp_max_pkt_size) f.block (omega arith)
          (omega arith))

last_bodies_flat :
    (f : AvFrame) (first : ℕ)
    → flatten (map (drop 2) (last_bodies f first))
      ≡ slice
          (f.start + (1 + f.frame_size / rtp_max_pkt_size * rtp_max_pkt_size))
          (f.frame_size % rtp_max_pkt_size)
          f.block
unfolding flatten
last_bodies_flat f first = elim (Bool-cases (ltb 0 (f.frame_size % rtp_max_pkt_size))) [
  | inl e ↦ rw e (append-nil _)
  | inr e ↦ rw e (let z : f.frame_size % rtp_max_pkt_size ≡ 0 = ground arith in rw z)
]

fragment_bodies_flat :
    (f : AvFrame) (nalu_type : ℕ)
    → flatten (map (drop 2) (fragment_bodies f nalu_type))
      ≡ slice (f.start + 1) f.frame_size f.block
fragment_bodies_flat f nalu_type =
    let pkt_num = f.frame_size / rtp_max_pkt_size in
    let remain = f.frame_size % rtp_max_pkt_size in
    let bs =
      loop_bodies f (fu_header nalu_type pkt_num remain) (fu_indicator nalu_type) pkt_num 0 1 in
    let cs = last_bodies f (fu_indicator nalu_type) in
    ap flatten (map-append (drop 2) bs cs)
    ∙ flatten-append (map (drop 2) bs) (map (drop 2) cs)
    ∙ ap₂ ◌++◌
        (loop_bodies_flat f (fu_header nalu_type pkt_num remain) (fu_indicator nalu_type) pkt_num 0
          1)
        (last_bodies_flat f (fu_indicator nalu_type))
    ∙ sym (
        slice-add (f.start + 1) (pkt_num * rtp_max_pkt_size) remain f.block (omega arith)
          (omega arith))

pub loop_bodies_count :
    (f : AvFrame) (second : ℕ → ℕ) (first n i pos : ℕ)
    → length (loop_bodies f second first n i pos) ≡ n
loop_bodies_count f second first zero i pos = refl
loop_bodies_count f second first (suc n) i pos =
    ap suc (loop_bodies_count f second first n (i + 1) (pos + rtp_max_pkt_size))

fragment_bodies_count :
    (f : AvFrame) (nalu_type : ℕ)
    → length (fragment_bodies f nalu_type)
      ≡ (f.frame_size + (rtp_max_pkt_size - 1)) / rtp_max_pkt_size
fragment_bodies_count f nalu_type =
    let pkt_num = f.frame_size / rtp_max_pkt_size in
    let remain = f.frame_size % rtp_max_pkt_size in
    let bs =
      loop_bodies f (fu_header nalu_type pkt_num remain) (fu_indicator nalu_type) pkt_num 0 1 in
    ground (
      arith,
      length-append bs (last_bodies f (fu_indicator nalu_type)),
      loop_bodies_count f (fu_header nalu_type pkt_num remain) (fu_indicator nalu_type) pkt_num 0 1,
    )

-- A frame of at most 1400 bytes, within its block, is sent by a ready sink as one packet that
-- carries the frame under the sink's header. The sequence number then goes up by one, modulo 2 ^
-- 16; the time stamp goes on by `clock_rate / fps` unless the frame is a parameter set (type 7 or
-- 8); the sink is ready again.
pub handle_frame_short :
    (f : AvFrame) (h : H264RtpSink) (nalu_type : ℕ)
    → IsReady h
    → get_elem? f.block f.start ≡ some nalu_type
    → f.frame_size ≤ rtp_max_pkt_size
    → f.start + f.frame_size ≤ length f.block
    → Returns
        (λ h'.
          (sent_since h.sink h'.sink
            ≡ record { header = header_of h.sink; body = slice f.start f.frame_size f.block } ∷ [])
          × (h'.sink.seq ≡ next_seq h.sink.seq)
          × (h'.sink.time_stamp
              ≡ (if is_parameter_set nalu_type then h.sink.time_stamp else next_stamp h))
          × IsReady h')
        (handle_frame f h)
unfolding handle_frame
handle_frame_short f h nalu_type r t k b = rw t (
    rw (le→leb f.frame_size rtp_max_pkt_size k)
      (Returns-map (send_whole f nalu_type h) short (send_whole-Handled f nalu_type h r k b)))
  where
    bs : List (List ℕ)
    bs = slice f.start f.frame_size f.block ∷ []

    stamp : ℕ
    stamp = if is_parameter_set nalu_type then h.sink.time_stamp else next_stamp h

    short :
        (h' : H264RtpSink)
        → Handled h bs stamp h'
        → (sent_since h.sink h'.sink
            ≡ record { header = header_of h.sink; body = slice f.start f.frame_size f.block } ∷ [])
          × (h'.sink.seq ≡ next_seq h.sink.seq)
          × (h'.sink.time_stamp ≡ stamp)
          × IsReady h'
    short h' e = (
      Handled-sent bs stamp e,
      ap (λ (x : RtpSink). x.seq) e.sink_is,
      ap (λ (x : RtpSink). x.time_stamp) e.sink_is,
      Handled-IsReady bs stamp r e,
    )

-- A frame of more than 1400 bytes, of a ready sink and with one more byte behind it in its block,
-- is sent as ⌈size / 1400⌉ fragments; the time stamp then goes on by `clock_rate / fps` and the
-- sink is ready again. Put together, the fragments' bodies behind their two bytes are `size` bytes
-- from the second byte of the NAL unit on: the rest of the unit and one byte that stands behind
-- the frame.
pub handle_frame_long :
    (f : AvFrame) (h : H264RtpSink) (nalu_type : ℕ)
    → IsReady h
    → get_elem? f.block f.start ≡ some nalu_type
    → rtp_max_pkt_size < f.frame_size
    → f.start + 1 + f.frame_size ≤ length f.block
    → Returns
        (λ h'.
          (reassembled (sent_since h.sink h'.sink) ≡ slice (f.start + 1) f.frame_size f.block)
          × (length (sent_since h.sink h'.sink)
              ≡ (f.frame_size + (rtp_max_pkt_size - 1)) / rtp_max_pkt_size)
          × (h'.sink.time_stamp ≡ next_stamp h)
          × IsReady h')
        (handle_frame f h)
unfolding handle_frame
handle_frame_long f h nalu_type r t k b = rw t (
    rw (gt→leb rtp_max_pkt_size f.frame_size k)
      (Returns-map (send_fragments f nalu_type h) long (send_fragments-Handled f nalu_type h r b)))
  where
    bs : List (List ℕ)
    bs = fragment_bodies f nalu_type

    long :
        (h' : H264RtpSink)
        → Handled h bs (next_stamp h) h'
        → (reassembled (sent_since h.sink h'.sink) ≡ slice (f.start + 1) f.frame_size f.block)
          × (length (sent_since h.sink h'.sink)
              ≡ (f.frame_size + (rtp_max_pkt_size - 1)) / rtp_max_pkt_size)
          × (h'.sink.time_stamp ≡ next_stamp h)
          × IsReady h'
    long h' e =
        let s = Handled-sent bs (next_stamp h) e in
        (
          ap reassembled s
              ∙ ap (λ l. flatten (map (drop 2) l)) (bodies-numbered h.sink bs)
              ∙ fragment_bodies_flat f nalu_type,
          ap length s ∙ length-numbered h.sink bs ∙ fragment_bodies_count f nalu_type,
          ap (λ (x : RtpSink). x.time_stamp) e.sink_is,
          Handled-IsReady bs (next_stamp h) r e,
        )
