-- ===== src/Session/Multicast/Silence.antt =====
-- Nothing is sent to the multicast address.
use my_rtsp_server.Prelude.{
  ℕ, ◌<◌, ◌≡◌, ◌≢◌, refl, sym, ap, ◌∙◌, Bool, true, false, none, some, List, [], ◌∷◌, ◌++◌, ◌==◌,
  ==_iff, ne→==, lt→ltb, if◌then◌else◌, Bool-cases, inl, inr, arith,
}
use my_rtsp_server.Rtp.{RtpPacket}
use my_rtsp_server.Rtp.Instance.{RtpInstance, new_over_udp}
use my_rtsp_server.Session.{
  MediaSession, Track, Instances, Slot, first, second, track_at, track_id0, track_id1, get_track,
  push_instance, add_rtp_instance, send_all, send_packet, get_multicast_dest_rtp_port,
}
use my_rtsp_server.Session.Tracks.{IsValid}
use my_rtsp_server.Session.Sending.{PointTo}
use my_rtsp_server.Session.Multicast.{
  Draws, Rtcps, point, multicast_addr, multicast_port, after_port, build_multicast, start_multicast,
}

send_all-point :
    (heap : Instances) (r : ℕ) (i : RtpInstance) (rs : List ℕ) (is' : List RtpInstance)
    (p : RtpPacket)
    → PointTo heap rs is'
    → heap r ≡ none
    → (send_all (point r (some i) heap) rs p ≡ send_all heap rs p)
      × PointTo (point r (some i) heap) rs is'
unfolding send_all
send_all-point heap r i [] [] p h n = (refl, tt)
send_all-point heap r i [] (j ∷ js) p h n = absurd h
send_all-point heap r i (x ∷ rs) [] p h n = absurd h
send_all-point heap r i (x ∷ rs) (j ∷ js) p (h, hs) n = elim (Bool-cases (r == x)) [
  | inl e ↦ let same : r ≡ x = (==_iff r x).0 e in let clash = ap heap same in cc
  | inr e ↦
      let (rest, points) = send_all-point heap r i rs js p hs n in
      (rw (e, rest) refl, (rw e h, points))
]

send_all-asleep :
    (heap : Instances) (r : ℕ) (i : RtpInstance) (rs : List ℕ) (p : RtpPacket)
    → heap r ≡ some i
    → i.is_alive ≡ false
    → send_all heap (rs ++ (r ∷ [])) p ≡ send_all heap rs p
unfolding send_all
send_all-asleep heap r i [] p h a = rw (h, a) refl
send_all-asleep heap r i (x ∷ rs) p h a = rw (send_all-asleep heap r i rs p h a) refl

add_first :
    (r : ℕ) (s : MediaSession)
    → s.track0.track_id ≡ track_id0
    → (add_rtp_instance track_id0 r s).1
      ≡ (if s.track0.is_alive then push_instance first r s else s)
unfolding add_rtp_instance get_track push_instance
add_first r s e = ground arith

add_second :
    (r : ℕ) (s : MediaSession)
    → s.track0.track_id ≡ track_id0
    → s.track1.track_id ≡ track_id1
    → (add_rtp_instance track_id1 r s).1
      ≡ (if s.track1.is_alive then push_instance second r s else s)
unfolding add_rtp_instance get_track push_instance
add_second r s e f = ground arith

-- What a track's instances send before and after the sleeping one is added.
same_sent :
    (heap : Instances) (t : Bool) (r : ℕ) (i : RtpInstance) (rs : List ℕ) (p : RtpPacket)
    → heap r ≡ some i
    → i.is_alive ≡ false
    → send_all heap (if t then rs ++ (r ∷ []) else rs) p ≡ send_all heap rs p
same_sent heap true r i rs p h a = send_all-asleep heap r i rs p h a
same_sent heap false r i rs p h a = refl

pushed_first :
    (r : ℕ) (s : MediaSession)
    → s.track0.track_id ≡ track_id0
    → let s' = (add_rtp_instance track_id0 r s).1 in
      (s'.track0.rtp_instances ≡ (
        if s.track0.is_alive then s.track0.rtp_instances ++ (r ∷ []) else s.track0.rtp_instances))
      × (s'.track1 ≡ s.track1)
      × (s'.track0.track_id ≡ track_id0)
      × (s'.multicast_rtp0 ≡ s.multicast_rtp0)
      × (s'.multicast_rtp1 ≡ s.multicast_rtp1)
unfolding push_instance
pushed_first r s e = elim (Bool-cases s.track0.is_alive) [
  | inl a ↦ simp (add_first r s e, a) (refl, refl, e, refl, refl)
  | inr a ↦ simp (add_first r s e, a) (refl, refl, e, refl, refl)
]

pushed_second :
    (r : ℕ) (s : MediaSession)
    → s.track0.track_id ≡ track_id0
    → s.track1.track_id ≡ track_id1
    → let s' = (add_rtp_instance track_id1 r s).1 in
      (s'.track1.rtp_instances ≡ (
        if s.track1.is_alive then s.track1.rtp_instances ++ (r ∷ []) else s.track1.rtp_instances))
      × (s'.track0 ≡ s.track0)
      × (s'.multicast_rtp0 ≡ s.multicast_rtp0)
      × (s'.multicast_rtp1 ≡ s.multicast_rtp1)
unfolding push_instance
pushed_second r s e f = elim (Bool-cases s.track1.is_alive) [
  | inl a ↦ simp (add_second r s e f, a) (refl, refl, refl, refl)
  | inr a ↦ simp (add_second r s e f, a) (refl, refl, refl, refl)
]

module _ (inet_ntoa : ℕ → List ℕ) (d : Draws) (heap : Instances) (rtcps : Rtcps) (s : MediaSession)
    (v : IsValid s) (fresh1 : heap d.rtp1 ≡ none) (fresh2 : heap d.rtp2 ≡ none)
    (apart : d.rtp1 ≢ d.rtp2) where
  abbrev built : MediaSession × Instances × Rtcps
  unfolding build_multicast
  built = build_multicast inet_ntoa d heap rtcps s

  abbrev instance1 : RtpInstance
  instance1 =
      new_over_udp d.rtp_sockfd1 0 (inet_ntoa (multicast_addr d.addr_rand))
        (multicast_port d.port_rand) d.unset_channel

  abbrev instance2 : RtpInstance
  instance2 =
      new_over_udp d.rtp_sockfd2 0 (inet_ntoa (multicast_addr d.addr_rand))
        (after_port (after_port (multicast_port d.port_rand))) d.unset_channel

  point1 : built.1 d.rtp1 ≡ some instance1
  unfolding build_multicast
  point1 = simp (ne→== d.rtp2 d.rtp1 (λ e. apart (sym e)), (==_iff d.rtp1 d.rtp1).1 refl) refl

  point2 : built.1 d.rtp2 ≡ some instance2
  unfolding build_multicast
  point2 = simp ((==_iff d.rtp2 d.rtp2).1 refl) refl

  old_sent :
      (rs : List ℕ) (is' : List RtpInstance) (p : RtpPacket)
      → PointTo heap rs is'
      → send_all built.1 rs p ≡ send_all heap rs p
  unfolding build_multicast
  old_sent rs is' p h =
      let (same, points) = send_all-point heap d.rtp1 instance1 rs is' p h fresh1 in
      let absent : point d.rtp1 (some instance1) heap d.rtp2 ≡ none =
        simp (ne→== d.rtp1 d.rtp2 apart) fresh2 in
      (send_all-point (point d.rtp1 (some instance1) heap) d.rtp2 instance2 rs is' p points
        absent).0
      ∙ same

  abbrev entered : MediaSession
  entered = record s {
    multicast_addr = inet_ntoa (multicast_addr d.addr_rand);
    multicast_rtp0 = some d.rtp1;
    multicast_rtp1 = some d.rtp2;
    multicast_rtcp0 = some d.rtcp1;
    multicast_rtcp1 = some d.rtcp2;
  }

  -- What the two calls of `AddRtpInstance` leave.
  entered_twice :
      (built.0.track0.rtp_instances ≡ (
        if s.track0.is_alive
        then s.track0.rtp_instances ++ (d.rtp1 ∷ [])
        else s.track0.rtp_instances))
      × (built.0.track1.rtp_instances ≡ (
          if s.track1.is_alive
          then s.track1.rtp_instances ++ (d.rtp2 ∷ [])
          else s.track1.rtp_instances))
      × (built.0.multicast_rtp0 ≡ some d.rtp1)
      × (built.0.multicast_rtp1 ≡ some d.rtp2)
  unfolding build_multicast
  entered_twice =
      let s2 = (add_rtp_instance track_id0 d.rtp1 entered).1 in
      let (list0, other1, id0, m0, m1) = pushed_first d.rtp1 entered v.id0 in
      let id1 : s2.track1.track_id ≡ track_id1 = ap (λ (t : Track). t.track_id) other1 ∙ v.id1 in
      let (list1, other0, n0, n1) = pushed_second d.rtp2 s2 id0 id1 in
      (
        ap (λ (t : Track). t.rtp_instances) other0 ∙ list0,
        list1
            ∙ ap
                (λ (t : Track).
                  if t.is_alive then t.rtp_instances ++ (d.rtp2 ∷ []) else t.rtp_instances)
                other1,
        n0 ∙ m0,
        n1 ∙ m1,
      )

  silent :
      (slot : Slot) (is' : List RtpInstance) (p : RtpPacket)
      → PointTo heap (track_at slot s).rtp_instances is'
      → send_packet built.1 slot p built.0 ≡ send_packet heap slot p s
  unfolding send_packet new_over_udp
  silent first is' p h =
      ap (λ l. send_all built.1 l p) entered_twice.0
      ∙ same_sent built.1 s.track0.is_alive d.rtp1 instance1 s.track0.rtp_instances p point1 refl
      ∙ old_sent s.track0.rtp_instances is' p h
  silent second is' p h =
      ap (λ l. send_all built.1 l p) entered_twice.1
      ∙ same_sent built.1 s.track1.is_alive d.rtp2 instance2 s.track1.rtp_instances p point2 refl
      ∙ old_sent s.track1.rtp_instances is' p h

  port0 : get_multicast_dest_rtp_port built.1 track_id0 built.0 ≡ some (multicast_port d.port_rand)
  unfolding get_multicast_dest_rtp_port new_over_udp built multicast_port
  port0 = simp (entered_twice.2, point1) refl

  port1 :
      get_multicast_dest_rtp_port built.1 track_id1 built.0
      ≡ some (after_port (after_port (multicast_port d.port_rand)))
  unfolding get_multicast_dest_rtp_port new_over_udp built multicast_port
  port1 = simp (entered_twice.3, point2) refl

  -- Starting multicast on a session succeeds if the four sockets could be made, and gives the
  -- first track the port that was drawn and the second the port two further on, modulo 2 ^ 16,
  -- which is 0 for the port 65534; and yet every packet is sent to exactly those that it was sent
  -- to before. The conditions: the tracks have their ids, the pointers of the track point to
  -- instances, and the two new instances are at distinct unused pointers.
  pub start_multicast_silent :
      (slot : Slot) (is' : List RtpInstance) (p : RtpPacket)
      → PointTo heap (track_at slot s).rtp_instances is'
      → 0 < d.rtp_sockfd1
      → 0 < d.rtp_sockfd2
      → 0 < d.rtcp_sockfd1
      → 0 < d.rtcp_sockfd2
      → (s' : MediaSession) × (heap' : Instances) × (rtcps' : Rtcps) × (start_multicast inet_ntoa d
            heap rtcps s
          ≡ some (s', heap', rtcps'))
        × (s'.is_start_multicast ≡ true)
        × (get_multicast_dest_rtp_port heap' track_id0 s' ≡ some (multicast_port d.port_rand))
        × (get_multicast_dest_rtp_port heap' track_id1 s'
            ≡ some (after_port (after_port (multicast_port d.port_rand))))
        × (send_packet heap' slot p s' ≡ send_packet heap slot p s)
  unfolding start_multicast build_multicast
  start_multicast_silent slot is' p h a b c e = (
    built.0,
    built.1,
    built.2,
    simp (lt→ltb _ _ a, lt→ltb _ _ b, lt→ltb _ _ c, lt→ltb _ _ e) refl,
    refl,
    port0,
    port1,
    silent slot is' p h,
  )
