-- ===== src/Rtp/H264/Fragments.antt =====
-- What `H264RtpSink::HandleFrame` hands to its callback, frame by frame.
use Prim.Native.Nat.{bit_and}
use my_rtsp_server.Prelude.{
  ◌==◌, ◌||◌, u32_mod, Bool-cases, inl, inr, ℕ, zero, suc, ◌+◌, ◌-◌, ◌*◌, ◌/◌, ◌%◌, ◌≤◌, ◌≡◌, refl,
  sym, ap, ap₂, subst, ◌∙◌, Bool, true, some, List, [], ◌∷◌, ◌++◌, arith, ltb, le→leb,
  if◌then◌else◌, Returns, Returns->>=, Returns-map, length, take, slice, overwrite, set,
  length-overwrite, slice-overwrite, length-slice,
}
use my_rtsp_server.Rtp.{
  AvFrame, load, RtpPacket, RtpSink, header_of, store, send_rtp_packet, next_seq, payload_size,
  rtp_max_pkt_size, rtp_header_size, datagram,
}
use my_rtsp_server.Rtp.H264.{
  H264RtpSink, send_sized, send_fragment, fu_indicator, fu_header, fragment_loop, advance_time,
  send_whole, send_fragments,
}

-- A sink after its callback was given `body` under the next header.
abbrev pub emit : RtpSink → List ℕ → RtpSink
emit s body = record s {
  sent = s.sent ++ (record { header = header_of s; body = body } ∷ []);
  seq = next_seq s.seq;
}

abbrev pub emit_all : RtpSink → List (List ℕ) → RtpSink
emit_all s [] = s
emit_all s (b ∷ bs) = emit_all (emit s b) bs

pub record IsReady (h : H264RtpSink) : Type 0 where
  pub connected : h.sink.has_callback ≡ true
  pub sized : length h.packet.payload ≡ payload_size

pub record Emitted (h : H264RtpSink) (bodies : List (List ℕ)) (h' : H264RtpSink) : Type 0 where
  pub sink_is : h'.sink ≡ emit_all h.sink bodies
  pub sized : length h'.packet.payload ≡ payload_size
  pub same_rate : h'.clock_rate ≡ h.clock_rate
  pub same_fps : h'.fps ≡ h.fps

length-set : (xs : List ℕ) (i v : ℕ) → length (set xs i v) ≡ length xs
length-set [] i v = refl
length-set (x ∷ xs) zero v = refl
length-set (x ∷ xs) (suc i) v = ap suc (length-set xs i v)

-- Two bytes set at the front and the rest copied behind them are one copy.
set-set-overwrite :
    (p bytes : List ℕ) (a b : ℕ)
    → overwrite (set (set p 0 a) 1 b) 2 bytes ≡ overwrite p 0 (a ∷ b ∷ bytes)
set-set-overwrite [] bytes a b = refl
set-set-overwrite (x ∷ []) bytes a b = refl
set-set-overwrite (x ∷ y ∷ r) bytes a b = refl

send_sized-Emitted :
    (size : ℕ) (p : RtpPacket) (h : H264RtpSink) (body : List ℕ)
    → h.sink.has_callback ≡ true
    → length p.payload ≡ payload_size
    → take size p.payload ≡ body
    → Emitted h (body ∷ []) (send_sized size p h)
unfolding send_sized send_rtp_packet datagram
send_sized-Emitted size p h body c l e =
    let n : size + rtp_header_size - rtp_header_size ≡ size = omega arith in
    record { sink_is = rw (c, n, e); sized = l; same_rate = refl; same_fps = refl }

send_fragment-Emitted :
    (f : AvFrame) (first second pos n : ℕ) (h : H264RtpSink)
    → IsReady h
    → n ≤ rtp_max_pkt_size
    → f.start + pos + n ≤ length f.block
    → Returns
        (Emitted h ((first ∷ second ∷ slice (f.start + pos) n f.block) ∷ []))
        (send_fragment f first second pos n h)
unfolding send_fragment load store
send_fragment-Emitted f first second pos n h r k b =
    let bytes = slice (f.start + pos) n f.block in
    let sized : length bytes ≡ n = length-slice (f.start + pos) n f.block b in
    rw (le→leb _ _ b) (
      rw (le→leb (2 + length bytes) payload_size (omega arith)) (
        send_sized-Emitted (n + 2)
          (record h.packet {
            payload = overwrite (set (set h.packet.payload 0 first) 1 second) 2 bytes;
          })
          h _ r.connected
          (omega (
            arith,
            length-overwrite (set (set h.packet.payload 0 first) 1 second) 2 bytes,
            length-set (set h.packet.payload 0 first) 1 second,
            length-set h.packet.payload 0 first,
            r.sized,
          ))
          (rw (set-set-overwrite h.packet.payload bytes first second) (
            slice-overwrite h.packet.payload 0 0 (first ∷ second ∷ bytes) refl (omega arith)
              (omega (arith, r.sized))))))

-- The bodies of the fragments of one length, as the loop takes them.
abbrev pub loop_bodies : AvFrame → (ℕ → ℕ) → ℕ → ℕ → ℕ → ℕ → List (List ℕ)
loop_bodies f second first zero i pos = []
loop_bodies f second first (suc n) i pos =
    (first ∷ second i ∷ slice (f.start + pos) rtp_max_pkt_size f.block)
    ∷ loop_bodies f second first n (i + 1) (pos + rtp_max_pkt_size)

emit_all-append :
    (s : RtpSink) (xs ys : List (List ℕ)) → emit_all s (xs ++ ys) ≡ emit_all (emit_all s xs) ys
emit_all-append s [] ys = refl
emit_all-append s (x ∷ xs) ys = emit_all-append (emit s x) xs ys

pub has_callback-emit_all :
    (s : RtpSink) (xs : List (List ℕ)) → (emit_all s xs).has_callback ≡ s.has_callback
has_callback-emit_all s [] = refl
has_callback-emit_all s (x ∷ xs) = has_callback-emit_all (emit s x) xs

Emitted-IsReady :
    {h h' : H264RtpSink} (bs : List (List ℕ)) → IsReady h → Emitted h bs h' → IsReady h'
Emitted-IsReady {h} bs r e = record {
  connected =
      ap (λ (s : RtpSink). s.has_callback) e.sink_is
      ∙ has_callback-emit_all h.sink bs
      ∙ r.connected;
  sized = e.sized;
}

Emitted-trans :
    {h h' h'' : H264RtpSink} (bs cs : List (List ℕ))
    → Emitted h bs h'
    → Emitted h' cs h''
    → Emitted h (bs ++ cs) h''
Emitted-trans {h} bs cs e e' = record {
  sink_is = e'.sink_is ∙ ap (λ s. emit_all s cs) e.sink_is ∙ sym (emit_all-append h.sink bs cs);
  sized = e'.sized;
  same_rate = e'.same_rate ∙ e.same_rate;
  same_fps = e'.same_fps ∙ e.same_fps;
}

fragment_loop-Emitted :
    (f : AvFrame) (second : ℕ → ℕ) (first n i pos : ℕ) (h : H264RtpSink)
    → IsReady h
    → f.start + pos + n * rtp_max_pkt_size ≤ length f.block
    → Returns
        (Emitted h (loop_bodies f second first n i pos))
        (fragment_loop f second first n i pos h)
unfolding fragment_loop
fragment_loop-Emitted f second first zero i pos h r b = record {
  sink_is = refl;
  sized = r.sized;
  same_rate = refl;
  same_fps = refl;
}
fragment_loop-Emitted f second first (suc n) i pos h r b =
    let body = first ∷ second i ∷ slice (f.start + pos) rtp_max_pkt_size f.block in
    let rest = loop_bodies f second first n (i + 1) (pos + rtp_max_pkt_size) in
    Returns->>= (Emitted h (body ∷ [])) (Emitted h (body ∷ rest)) _ _
      (send_fragment-Emitted f first (second i) pos rtp_max_pkt_size h r (omega arith)
        (omega arith))
      λ h' e.
        Returns-map {P = Emitted h' rest} {Q = Emitted h (body ∷ rest)} _
          (λ h'' e'. Emitted-trans (body ∷ []) rest e e')
          (fragment_loop-Emitted f second first n (i + 1) (pos + rtp_max_pkt_size) h'
            (Emitted-IsReady (body ∷ []) r e) (omega arith))

time_stamp-emit_all : (s : RtpSink) (xs : List (List ℕ)) → (emit_all s xs).time_stamp ≡ s.time_stamp
time_stamp-emit_all s [] = refl
time_stamp-emit_all s (x ∷ xs) = time_stamp-emit_all (emit s x) xs

abbrev pub is_parameter_set : ℕ → Bool
is_parameter_set nalu_type = (bit_and nalu_type 0x1F == 7) || (bit_and nalu_type 0x1F == 8)

abbrev pub next_stamp : H264RtpSink → ℕ
next_stamp h = (h.sink.time_stamp + h.clock_rate / h.fps) % u32_mod

-- The callback got the bodies in turn under one time stamp, and then the stamp became `stamp`.
pub record Handled (h : H264RtpSink) (bodies : List (List ℕ)) (stamp : ℕ) (h' : H264RtpSink)
    : Type 0 where
  pub sink_is : h'.sink ≡ record (emit_all h.sink bodies) { time_stamp = stamp }
  pub sized : length h'.packet.payload ≡ payload_size

advance_time-Handled :
    {h h' : H264RtpSink} (bs : List (List ℕ))
    → Emitted h bs h'
    → Handled h bs (next_stamp h) (advance_time h')
unfolding advance_time
advance_time-Handled {h} {h'} bs e = record {
  sink_is =
      ap₂ (λ (s : RtpSink) (t : ℕ). record s { time_stamp = t }) e.sink_is
        (rw (e.sink_is, e.same_rate, e.same_fps, time_stamp-emit_all h.sink bs));
  sized = e.sized;
}

pub send_whole-Handled :
    (f : AvFrame) (nalu_type : ℕ) (h : H264RtpSink)
    → IsReady h
    → f.frame_size ≤ rtp_max_pkt_size
    → f.start + f.frame_size ≤ length f.block
    → Returns
        (Handled h
          (slice f.start f.frame_size f.block ∷ [])
          (if is_parameter_set nalu_type then h.sink.time_stamp else next_stamp h))
        (send_whole f nalu_type h)
unfolding send_whole load store
send_whole-Handled f nalu_type h r k b =
    let bytes = slice (f.start + 0) f.frame_size f.block in
    let n : f.start + 0 ≡ f.start = omega arith in
    let sized : length bytes ≡ f.frame_size =
      length-slice (f.start + 0) f.frame_size f.block (omega arith) in
    let p = record h.packet { payload = overwrite h.packet.payload 0 bytes } in
    let e : Emitted h (bytes ∷ []) (send_sized f.frame_size p h) =
      send_sized-Emitted f.frame_size p h bytes r.connected
        (omega (arith, length-overwrite h.packet.payload 0 bytes, r.sized))
        (slice-overwrite h.packet.payload 0 0 bytes refl (omega arith) (omega (arith, r.sized))) in
    let e' =
      subst (λ j. Emitted h (slice j f.frame_size f.block ∷ []) (send_sized f.frame_size p h)) n
        e in
    rw (le→leb (f.start + 0 + f.frame_size) (length f.block) (omega arith)) (
      rw (le→leb (0 + length bytes) payload_size (omega arith))
        (elim (Bool-cases (is_parameter_set nalu_type)) [
          | inl t ↦ rw t (record { sink_is = e'.sink_is; sized = e'.sized })
          | inr t ↦ rw t (advance_time-Handled (slice f.start f.frame_size f.block ∷ []) e')
        ]))

abbrev pub last_bodies : AvFrame → ℕ → List (List ℕ)
last_bodies f first =
    if ltb 0 (f.frame_size % rtp_max_pkt_size)
    then (first
        ∷ 0x40
        ∷ slice (f.start + (1 + f.frame_size / rtp_max_pkt_size * rtp_max_pkt_size))
            (f.frame_size % rtp_max_pkt_size) f.block)
      ∷ []
    else []

last_fragment-Emitted :
    (f : AvFrame) (first : ℕ) (h : H264RtpSink)
    → IsReady h
    → f.start + 1 + f.frame_size ≤ length f.block
    → let remain = f.frame_size % rtp_max_pkt_size in
      Returns (Emitted h (last_bodies f first)) (
        if ltb 0 remain
        then send_fragment f first 0x40
            (1 + f.frame_size / rtp_max_pkt_size * rtp_max_pkt_size)
            remain
            h
        else some h)
last_fragment-Emitted f first h r b =
    let remain = f.frame_size % rtp_max_pkt_size in
    elim (Bool-cases (ltb 0 remain)) [
      | inl e ↦ rw e (
          send_fragment-Emitted f first 0x40
            (1 + f.frame_size / rtp_max_pkt_size * rtp_max_pkt_size) remain h r (omega arith)
            (omega arith))
      | inr e ↦ rw e (record { sink_is = refl; sized = r.sized; same_rate = refl; same_fps = refl })
    ]

-- The bodies of the fragments of a long frame.
abbrev pub fragment_bodies : AvFrame → ℕ → List (List ℕ)
fragment_bodies f nalu_type =
    let pkt_num = f.frame_size / rtp_max_pkt_size in
    let remain = f.frame_size % rtp_max_pkt_size in
    loop_bodies f (fu_header nalu_type pkt_num remain) (fu_indicator nalu_type) pkt_num 0 1
    ++ last_bodies f (fu_indicator nalu_type)

pub send_fragments-Handled :
    (f : AvFrame) (nalu_type : ℕ) (h : H264RtpSink)
    → IsReady h
    → f.start + 1 + f.frame_size ≤ length f.block
    → Returns
        (Handled h (fragment_bodies f nalu_type) (next_stamp h))
        (send_fragments f nalu_type h)
unfolding send_fragments
send_fragments-Handled f nalu_type h r b =
    let first = fu_indicator nalu_type in
    let pkt_num = f.frame_size / rtp_max_pkt_size in
    let remain = f.frame_size % rtp_max_pkt_size in
    let bs = loop_bodies f (fu_header nalu_type pkt_num remain) first pkt_num 0 1 in
    let cs = last_bodies f first in
    Returns->>= (Emitted h bs) (Handled h (bs ++ cs) (next_stamp h)) _ _
      (fragment_loop-Emitted f (fu_header nalu_type pkt_num remain) first pkt_num 0 1 h r
        (omega arith))
      λ h' e.
        Returns->>= (Emitted h' cs) (Handled h (bs ++ cs) (next_stamp h)) _ _
          (last_fragment-Emitted f first h' (Emitted-IsReady bs r e) b)
          λ h'' e'. advance_time-Handled (bs ++ cs) (Emitted-trans bs cs e e')
