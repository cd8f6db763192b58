-- ===== src/Rtp/H264/Numbers.antt =====
-- The headers of the packets of a frame, and the last fragment's type.
use mathlib.Core.Option
use my_rtsp_server.Prelude.{
  ℕ, zero, suc, ◌+◌, ◌*◌, ◌/◌, ◌%◌, ◌≤◌, ◌<◌, ◌≡◌, refl, subst, sym, ap, ◌∙◌, none, some,
  get_elem?-append_right, List, [], ◌∷◌, arith, ltb, leb, gt→leb, lt→ltb, map, if◌then◌else◌,
  Returns, Returns-map, length, slice, get_elem?, Bool-cases, inl, inr, u16_mod,
}
use my_rtsp_server.Rtp.{
  AvFrame, RtpHeader, RtpSink, Datagram, header_of, next_seq, rtp_max_pkt_size,
}
use my_rtsp_server.Rtp.H264.{
  H264RtpSink, fu_indicator, fu_header, send_whole, send_fragments, handle_frame,
}
use my_rtsp_server.Rtp.H264.Fragments.{
  emit, emit_all, IsReady, Handled, next_stamp, loop_bodies, last_bodies, fragment_bodies,
  send_whole-Handled, send_fragments-Handled,
}
use my_rtsp_server.Rtp.H264.Frames.{loop_bodies_count}
use my_rtsp_server.Rtp.H264.Sent.{numbered, sent_since, Handled-sent, length-numbered}

abbrev pub header_at : RtpSink → ℕ → RtpHeader
header_at s i = record (header_of s) { seq = (s.seq + i) % u16_mod }

numbered-header :
    (s : RtpSink) (bs : List (List ℕ)) (i : ℕ)
    → s.seq < u16_mod
    → get_elem? (numbered s bs) i
      ≡ Option.map (λ b. record { header = header_at s i; body = b }) (get_elem? bs i)
numbered-header s [] i h = refl
numbered-header s (b ∷ bs) zero h =
    ap (λ (n : ℕ). some (record { header = record (header_of s) { seq = n }; body = b }))
      (omega arith)
numbered-header s (b ∷ bs) (suc i) h =
    numbered-header (record s { seq = next_seq s.seq }) bs i (omega arith)
    ∙ ap
        (λ (n : ℕ).
          Option.map (λ b'. record { header = record (header_of s) { seq = n }; body = b' })
            (get_elem? bs i))
        (omega arith)

abbrev headers : List Datagram → List RtpHeader
headers ds = map (λ (d : Datagram). d.header) ds

get_elem?-headers :
    (ds : List Datagram) (i : ℕ)
    → get_elem? (headers ds) i ≡ Option.map (λ (d : Datagram). d.header) (get_elem? ds i)
get_elem?-headers [] i = refl
get_elem?-headers (d ∷ ds) zero = refl
get_elem?-headers (d ∷ ds) (suc i) = get_elem?-headers ds i

header_of_place :
    (x : RtpHeader) (bs : List (List ℕ)) (i : ℕ)
    → Option.map
        (λ (d : Datagram). d.header)
        (Option.map (λ b. record { header = x; body = b }) (get_elem? bs i))
      ≡ (if ltb i (length bs) then some x else none)
header_of_place x [] i = ground arith
header_of_place x (b ∷ bs) zero = ground arith
header_of_place x (b ∷ bs) (suc i) = ground (arith, header_of_place x bs i)

headers-numbered :
    (s : RtpSink) (bs : List (List ℕ)) (i : ℕ)
    → s.seq < u16_mod
    → get_elem? (headers (numbered s bs)) i
      ≡ (if ltb i (length (numbered s bs)) then some (header_at s i) else none)
headers-numbered s bs i h =
    get_elem?-headers (numbered s bs) i
    ∙ ap (Option.map (λ (d : Datagram). d.header)) (numbered-header s bs i h)
    ∙ header_of_place (header_at s i) bs i
    ∙ ap (λ n. if ltb i n then some (header_at s i) else none) (sym (length-numbered s bs))

seq-emit_all :
    (s : RtpSink) (bs : List (List ℕ))
    → s.seq < u16_mod
    → (emit_all s bs).seq ≡ (s.seq + length bs) % u16_mod
seq-emit_all s [] h = omega arith
seq-emit_all s (b ∷ bs) h = omega (arith, seq-emit_all (emit s b) bs)

-- The sink's number is a 16-bit word, and the block reaches one byte beyond the frame.
abbrev pub Fits : AvFrame → H264RtpSink → ℕ → Type 0
Fits f h nalu_type =
    (get_elem? f.block f.start ≡ some nalu_type)
    × (f.start + 1 + f.frame_size ≤ length f.block)
    × (h.sink.seq < u16_mod)

handle_frame-Handled :
    (f : AvFrame) (h : H264RtpSink) (nalu_type : ℕ)
    → IsReady h
    → Fits f h nalu_type
    → Returns (λ h'. (bs : List (List ℕ)) × (stamp : ℕ) × Handled h bs stamp h') (handle_frame f h)
unfolding handle_frame
handle_frame-Handled f h nalu_type r (t, b, _) =
    rw t (elim (Bool-cases (leb f.frame_size rtp_max_pkt_size)) [
      | inl e ↦ rw e (
          Returns-map (send_whole f nalu_type h) (λ h' p. (_, _, p))
            (send_whole-Handled f nalu_type h r (ground arith) (omega arith)))
      | inr e ↦ rw e (
          Returns-map (send_fragments f nalu_type h) (λ h' p. (_, _, p))
            (send_fragments-Handled f nalu_type h r b))
    ])

-- Packet `i` of the packets of a frame carries the sink's sequence number plus `i`, modulo 2 ^ 16,
-- and else the sink's header, with its time stamp; the sink goes on behind the last. The
-- conditions: the sink is ready, its number is a 16-bit word, and the block reaches one byte
-- beyond the frame.
pub handle_frame_numbers :
    (f : AvFrame) (h : H264RtpSink) (nalu_type i : ℕ)
    → IsReady h
    → Fits f h nalu_type
    → Returns
        (λ h'.
          let ds = sent_since h.sink h'.sink in
          (get_elem? (map (λ (d : Datagram). d.header) ds) i
            ≡ (if ltb i (length ds) then some (header_at h.sink i) else none))
          × (h'.sink.seq ≡ (h.sink.seq + length ds) % u16_mod))
        (handle_frame f h)
handle_frame_numbers f h nalu_type i r fits =
    Returns-map (handle_frame f h) consecutive (handle_frame-Handled f h nalu_type r fits)
  where
    consecutive :
        (h' : H264RtpSink)
        → ((bs : List (List ℕ)) × (stamp : ℕ) × Handled h bs stamp h')
        → (get_elem? (map (λ (d : Datagram). d.header) (sent_since h.sink h'.sink)) i ≡ (
            if ltb i (length (sent_since h.sink h'.sink)) then some (header_at h.sink i) else none))
          × (h'.sink.seq ≡ (h.sink.seq + length (sent_since h.sink h'.sink)) % u16_mod)
    consecutive h' (bs, stamp, e) =
        let s = Handled-sent bs stamp e in
        (
          subst
              (λ ds.
                get_elem? (map (λ (d : Datagram). d.header) ds) i
                ≡ (if ltb i (length ds) then some (header_at h.sink i) else none))
              (sym s) (headers-numbered h.sink bs i fits.2),
          ap (λ (x : RtpSink). x.seq) e.sink_is
              ∙ seq-emit_all h.sink bs fits.2
              ∙ ap (λ n. (h.sink.seq + n) % u16_mod)
                  (sym (length-numbered h.sink bs) ∙ ap length (sym s)),
        )

-- Where a frame of more than 1400 bytes has a size that is no multiple of 1400, its last fragment
-- has 0x40 as its second byte whatever the NAL unit is: the end mark is there, the unit's type is
-- not. The conditions are those of `handle_frame_numbers`.
pub handle_frame_last_type :
    (f : AvFrame) (h : H264RtpSink) (nalu_type : ℕ)
    → IsReady h
    → Fits f h nalu_type
    → rtp_max_pkt_size < f.frame_size
    → 0 < f.frame_size % rtp_max_pkt_size
    → Returns
        (λ h'.
          (d : Datagram) × (get_elem? (sent_since h.sink h'.sink) (f.frame_size / rtp_max_pkt_size)
            ≡ some d)
          × (get_elem? d.body 0 ≡ some (fu_indicator nalu_type))
          × (get_elem? d.body 1 ≡ some 0x40))
        (handle_frame f h)
unfolding handle_frame
handle_frame_last_type f h nalu_type r (t, b, w) k m = rw t (
    rw (gt→leb rtp_max_pkt_size f.frame_size k)
      (Returns-map (send_fragments f nalu_type h) last (send_fragments-Handled f nalu_type h r b)))
  where
    pkt_num : ℕ
    pkt_num = f.frame_size / rtp_max_pkt_size

    loop : List (List ℕ)
    loop =
        loop_bodies f (fu_header nalu_type pkt_num (f.frame_size % rtp_max_pkt_size))
          (fu_indicator nalu_type) pkt_num 0 1

    rest : List ℕ
    rest =
        slice (f.start + (1 + pkt_num * rtp_max_pkt_size)) (f.frame_size % rtp_max_pkt_size) f.block

    found :
        get_elem? (fragment_bodies f nalu_type) pkt_num
        ≡ some (fu_indicator nalu_type ∷ 0x40 ∷ rest)
    found =
        get_elem?-append_right loop (last_bodies f (fu_indicator nalu_type)) pkt_num
          (sym (loop_bodies_count f _ (fu_indicator nalu_type) pkt_num 0 1))
        ∙ rw (lt→ltb 0 (f.frame_size % rtp_max_pkt_size) m)

    last :
        (h' : H264RtpSink)
        → Handled h (fragment_bodies f nalu_type) (next_stamp h) h'
        → (d : Datagram) × (get_elem? (sent_since h.sink h'.sink) (f.frame_size / rtp_max_pkt_size)
            ≡ some d)
          × (get_elem? d.body 0 ≡ some (fu_indicator nalu_type))
          × (get_elem? d.body 1 ≡ some 0x40)
    last h' e = (
      record { header = header_at h.sink pkt_num; body = fu_indicator nalu_type ∷ 0x40 ∷ rest },
      ap (λ l. get_elem? l pkt_num) (Handled-sent (fragment_bodies f nalu_type) (next_stamp h) e)
          ∙ numbered-header h.sink (fragment_bodies f nalu_type) pkt_num w
          ∙ ap (Option.map (λ b. record { header = header_at h.sink pkt_num; body = b })) found,
      refl,
      refl,
    )
