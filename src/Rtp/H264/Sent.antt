-- ===== src/Rtp/H264/Sent.antt =====
-- What a sink has handed to its callback since a state, and how its packets are numbered.
use mathlib.Core.List.{flatten}
use my_rtsp_server.Prelude.{
  ℕ, suc, ◌≡◌, refl, sym, ap, ◌∙◌, List, [], ◌∷◌, ◌++◌, map, length, drop, append_assoc, append-nil,
  drop-append_left,
}
use my_rtsp_server.Rtp.{RtpSink, Datagram, header_of, next_seq}
use my_rtsp_server.Rtp.H264.{H264RtpSink}
use my_rtsp_server.Rtp.H264.Fragments.{emit, emit_all, IsReady, Handled, has_callback-emit_all}

-- The bodies, each under the header that the sink has at that time.
abbrev pub numbered : RtpSink → List (List ℕ) → List Datagram
numbered s [] = []
numbered s (b ∷ bs) =
    record { header = header_of s; body = b } ∷ numbered (record s { seq = next_seq s.seq }) bs

pub numbered-sent :
    (s : RtpSink) (d : List Datagram) (bs : List (List ℕ))
    → numbered (record s { sent = d }) bs ≡ numbered s bs
numbered-sent s d [] = refl
numbered-sent s d (b ∷ bs) =
    ap (◌∷◌ (record { header = header_of s; body = b }))
      (numbered-sent (record s { seq = next_seq s.seq }) d bs)

pub sent-emit_all :
    (s : RtpSink) (bs : List (List ℕ)) → (emit_all s bs).sent ≡ s.sent ++ numbered s bs
sent-emit_all s [] = sym (append-nil s.sent)
sent-emit_all s (b ∷ bs) =
    sent-emit_all (emit s b) bs
    ∙ ap (λ d. (s.sent ++ (record { header = header_of s; body = b } ∷ [])) ++ d)
        (numbered-sent (record s { seq = next_seq s.seq }) (emit s b).sent bs)
    ∙ append_assoc s.sent _ _

abbrev pub bodies : List Datagram → List (List ℕ)
bodies ds = map (λ (d : Datagram). d.body) ds

pub bodies-numbered : (s : RtpSink) (bs : List (List ℕ)) → bodies (numbered s bs) ≡ bs
bodies-numbered s [] = refl
bodies-numbered s (b ∷ bs) = ap (◌∷◌ b) (bodies-numbered (record s { seq = next_seq s.seq }) bs)

-- What the receiver puts together: the bodies without the two bytes of the fragment header.
abbrev pub reassembled : List Datagram → List ℕ
reassembled ds = flatten (map (drop 2) (bodies ds))

-- What was handed to the callback since `s`.
abbrev pub sent_since : RtpSink → RtpSink → List Datagram
sent_since s s' = drop (length s.sent) s'.sent

-- A read of `sent` through the record that `Handled` gives.
pub Handled-sent :
    {h h' : H264RtpSink} (bs : List (List ℕ)) (stamp : ℕ)
    → Handled h bs stamp h'
    → sent_since h.sink h'.sink ≡ numbered h.sink bs
Handled-sent {h} {h'} bs stamp e =
    ap (drop (length h.sink.sent))
      (ap (λ (s : RtpSink). s.sent) e.sink_is ∙ sent-emit_all h.sink bs)
    ∙ drop-append_left h.sink.sent (numbered h.sink bs)

pub length-numbered : (s : RtpSink) (bs : List (List ℕ)) → length (numbered s bs) ≡ length bs
length-numbered s [] = refl
length-numbered s (b ∷ bs) = ap suc (length-numbered (record s { seq = next_seq s.seq }) bs)

pub Handled-IsReady :
    {h h' : H264RtpSink} (bs : List (List ℕ)) (stamp : ℕ)
    → IsReady h
    → Handled h bs stamp h'
    → IsReady h'
Handled-IsReady {h} bs stamp r e = record {
  connected =
      ap (λ (s : RtpSink). s.has_callback) e.sink_is
      ∙ has_callback-emit_all h.sink bs
      ∙ r.connected;
  sized = e.sized;
}
