-- ===== src/Rtsp/Response/Streaming.antt =====
-- From SETUP over the connection's own socket to the bytes of a packet on it.
use my_rtsp_server.Prelude.{
  ℕ, ◌+◌, ◌<◌, ◌≤◌, ◌≡◌, refl, sym, ap, ◌∙◌, Bool, true, false, not, none, some, List, [], ◌∷◌,
  ◌++◌, map, arith, subst, ◌==◌, ==_iff, length, take, ◌>>=◌, Returns, Returns->>=, Returns-map,
  u8_mod,
}
use my_rtsp_server.Prelude.Text.{bytes_eq_refl}
use my_rtsp_server.Buffer.Contents.{IsRealloc}
use my_rtsp_server.Rtp.{RtpPacket, payload_size, rtp_header_size}
use my_rtsp_server.Rtp.Instance.{
  RtpInstance, Transmission, write, new_over_tcp, set_session_id, set_alive, packet_bytes, send,
}
use my_rtsp_server.Rtp.Instance.Wire.{read_frame, read_frame-send}
use my_rtsp_server.Session.{Slot, track_at, MediaSession, get_track, add_rtp_instance, send_packet}
use my_rtsp_server.Session.Tracks.{rtp_instances-add_rtp_instance}
use my_rtsp_server.Session.Sending.{
  alive_ones, PointTo, send_packet_alive, PointTo-update, PointTo-append, sends-append,
}
use my_rtsp_server.Rtsp.{RtspConnection}
use my_rtsp_server.Rtsp.Scan.{scan_set}
use my_rtsp_server.Rtsp.World.{World, lookup_media_session, update, lookup-update_session}
use my_rtsp_server.Rtsp.Answer.{Env, message_buffer, send_message}
use my_rtsp_server.Rtsp.Response.{
  rtp_at, rtcp_at, put_instances, is_some, setup_tcp, setup_track, handle_cmd_setup, play_text,
  handle_cmd_play,
}
use my_rtsp_server.Rtsp.Response.Messages.{CanAnswer}
use my_rtsp_server.Rtsp.Response.Setup.{tcp_instance, handle_cmd_setup-setup_track}
use my_rtsp_server.Rtsp.Response.Settled.{
  IsBare, Settled, send_message-Settled, set_up, SetUpAll, setup_tcp-SetUpAll, HasOnly,
  wake_all-HasOnly, put_instances-HasOnly, put_instances-CanAnswer,
}

-- What the session under the name sends of a packet: what it sent before, and last the packet as an
-- interleaved frame of the channel to the socket.
abbrev pub Streams : List ℕ → Slot → RtpPacket → List Transmission → ℕ → ℕ → World → Type 0
Streams name slot p before fd channel w =
    (s : MediaSession) × (bytes : List ℕ) × (lookup_media_session name w.sessions ≡ some s)
    × (send_packet w.instances slot p s ≡ some (before ++ (write fd bytes ∷ [])))
    × (read_frame bytes
        ≡ some (record { channel = channel; bytes = take p.size (packet_bytes p) }, []))

module _ (env : Env) (name : List ℕ) (s : MediaSession) (c : RtspConnection) (w : World)
    (slot : Slot) (is' : List RtpInstance) (p : RtpPacket)
    (found : lookup_media_session name w.sessions ≡ some s)
    (place : get_track c.track_id s ≡ some slot) (live : (track_at slot s).is_alive ≡ true)
    (free : w.instances w.next ≡ none)
    (points : PointTo w.instances (track_at slot s).rtp_instances is')
    (narrow : c.rtp_channel < u8_mod) (whole : length p.payload ≡ payload_size)
    (fits : p.size ≤ rtp_header_size + payload_size) where
  playing-Streams :
      (w2 : World)
      → w2.sessions ≡ (set_up env name s c w).sessions
      → w2.instances
        ≡ update w.next
            (some (set_alive true (tcp_instance env c)))
            (set_up env name s c w).instances
      → Streams name slot p (map (send p) (alive_ones is')) c.sock_fd c.rtp_channel w2
  unfolding set_alive set_session_id new_over_tcp
  playing-Streams w2 sessions instances =
      let i = set_alive true (tcp_instance env c) in
      let s' = (add_rtp_instance c.track_id w.next s).1 in
      let heap = update w.next (some i) (set_up env name s c w).instances in
      let kept : (q : ℕ) → (w.next == q) ≡ false → heap q ≡ w.instances q = λ q e. rw e refl in
      let here : heap w.next ≡ some i = rw ((==_iff w.next w.next).1 refl) refl in
      let registered = rtp_instances-add_rtp_instance c.track_id w.next slot s place live in
      let pointed : PointTo heap (track_at slot s').rtp_instances (is' ++ (i ∷ [])) =
        subst (λ l. PointTo heap l (is' ++ (i ∷ []))) (sym registered)
          (PointTo-append heap (track_at slot s).rtp_instances is' w.next i
            (PointTo-update w.instances heap w.next (track_at slot s).rtp_instances is' free kept
              points)
            here) in
      let (bytes, sent, framed) = read_frame-send p i refl narrow whole fits in
      (
        s',
        bytes,
        ap (lookup_media_session name) sessions
            ∙ lookup-update_session name name s' s w.sessions found
            ∙ rw (bytes_eq_refl name) refl,
        ap (λ h. send_packet h slot p s') instances
            ∙ send_packet_alive heap slot (is' ++ (i ∷ [])) p s' pointed
            ∙ ap some (
                sends-append p is' i refl
                ∙ ap (λ x. map (send p) (alive_ones is') ++ (x ∷ [])) sent),
        framed,
      )

  -- PLAY behind that SETUP.
  play-Streams :
      (env' : Env) (c1 : RtspConnection) (w1 : World) (n : ℕ)
      → HasOnly w.next c1
      → CanAnswer env' c1 n
      → w1 ≡ set_up env name s c w
      → Returns
          (λ r.
            (r.0 ≡ true)
            × Streams name slot p (map (send p) (alive_ones is')) c.sock_fd c.rtp_channel r.2)
          (handle_cmd_play env' c1 w1)
  unfolding handle_cmd_play Settled
  play-Streams env' c1 w1 n only ready same =
      let i = tcp_instance env c in
      let Plays : Bool × RtspConnection × World → Type 0 = λ r.
        (r.0 ≡ true)
        × Streams name slot p (map (send p) (alive_ones is')) c.sock_fd c.rtp_channel r.2 in
      let here : w1.instances w.next ≡ some i =
        ap (λ (v : World). v.instances w.next) same ∙ rw ((==_iff w.next w.next).1 refl) refl in
      let streams =
        playing-Streams
          (record w1 { instances = update w.next (some (set_alive true i)) w1.instances })
          (ap (λ (v : World). v.sessions) same)
          (ap (λ (v : World). update w.next (some (set_alive true i)) v.instances) same) in
      Returns->>= (Settled c1) Plays (send_message env' (message_buffer (play_text c1)) c1) _
        (send_message-Settled env' (play_text c1) c1 n ready)
        (λ (done, c') h. rw h.0 (
          subst (λ o. Returns Plays (do w' ← o; some (true, c', w')))
            (sym (wake_all-HasOnly w.next i c1 w1 only here)) (refl, streams)))

  -- SETUP, and PLAY behind it.
  setup_tcp-Streams :
      (env' : Env) (n n' : ℕ)
      → CanAnswer env c n
      → IsRealloc env'.realloc
      → env'.wrote ≡ some n'
      → rtp_at c.track_id c ≡ some none
      → IsBare c
      → Returns
          (λ (done, c1, w1).
            (done ≡ true)
            × Returns
                (λ (done', c2, w2).
                  (done' ≡ true)
                  × Streams name slot p (map (send p) (alive_ones is')) c.sock_fd c.rtp_channel w2)
                (handle_cmd_play env' c1 w1))
          (setup_tcp env name s c w)
  unfolding Settled SetUpAll
  setup_tcp-Streams env' n n' r allocates takes known bare =
      let cp = put_instances c.track_id (some w.next) none c in
      let only = put_instances-HasOnly c.track_id w.next c known bare in
      Returns-map (setup_tcp env name s c w)
        (λ (done, c1, w1) h. (
          h.0.0,
          play-Streams env' c1 w1 n' (subst (HasOnly w.next) (sym h.0.1) only)
              (record {
                allocates = allocates;
                valid = h.0.2;
                drained = h.0.3;
                low = omega (arith, h.0.4);
                takes = takes;
              })
              h.1,
        ))
        (setup_tcp-SetUpAll env name s c w n
          (put_instances-CanAnswer env c.track_id (some w.next) c n r))

  -- From SETUP to the bytes of a packet. A connection that has no instance asks for a live track
  -- over its own socket and then for PLAY: both succeed, and from then on a packet of the track
  -- goes to those that it went to before and, last, to the connection's socket, as bytes that read
  -- back as one interleaved frame of its channel with the packet in it. The conditions: the URL
  -- names the session in fewer than 100 bytes, the connection has described a session that is not
  -- multicast and uses RTP over TCP with an 8-bit channel; the session's pointers point to
  -- instances, and the new instance is at an unused pointer; both times the connection can answer
  -- (`realloc` does what it documents, and before SETUP its output buffer is valid, empty and has
  -- its write index low; the next write takes some bytes); and the packet fits its block.
  pub handle_cmd_setup-handle_cmd_play :
      (env' : Env) (rest own : List ℕ) (described : MediaSession) (n n' : ℕ)
      → CanAnswer env c n
      → IsRealloc env'.realloc
      → env'.wrote ≡ some n'
      → scan_set (λ x. not (x == b'/')) c.suffix ≡ some (name, rest)
      → length name < 100
      → rtp_at c.track_id c ≡ some none
      → rtcp_at c.track_id c ≡ some none
      → IsBare c
      → c.session ≡ some own
      → lookup_media_session own w.sessions ≡ some described
      → described.is_start_multicast ≡ false
      → c.is_rtp_over_tcp ≡ true
      → Returns
          (λ (done, c1, w1).
            (done ≡ true)
            × Returns
                (λ (done', c2, w2).
                  (done' ≡ true)
                  × Streams name slot p (map (send p) (alive_ones is')) c.sock_fd c.rtp_channel w2)
                (handle_cmd_play env' c1 w1))
          (handle_cmd_setup env c w)
  unfolding setup_track is_some
  handle_cmd_setup-handle_cmd_play env' rest own described n n' r allocates takes scanned short
        known known' bare mine is_known single tcp =
      let Plays : Bool × RtspConnection × World → Type 0 = λ (done, c1, w1).
        (done ≡ true)
        × Returns
            (λ (done', c2, w2).
              (done' ≡ true)
              × Streams name slot p (map (send p) (alive_ones is')) c.sock_fd c.rtp_channel w2)
            (handle_cmd_play env' c1 w1) in
      subst (Returns Plays)
        (sym (handle_cmd_setup-setup_track env name rest s c w scanned short found))
        (simp (known, known', mine, is_known, single, tcp)
          (setup_tcp-Streams env' n n' r allocates takes known bare))
