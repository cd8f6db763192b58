-- ===== src/Rtsp/Response/SetupUdp.antt =====
-- SETUP over UDP, where the server opens a pair of sockets for the track.
use my_rtsp_server.Prelude.{
  ℕ, suc, ◌+◌, ◌<◌, ◌≡◌, refl, sym, ap, ◌∙◌, true, false, not, Option, none, some, List, subst,
  ◌==◌, ==_iff, length, Returns, Returns->>=, ◌^◌, Bool, Returns-map,
}
use my_rtsp_server.Prelude.Text.{bytes_eq_refl}
use my_rtsp_server.Buffer.{Buffer, peek}
use my_rtsp_server.Buffer.Contents.{IsValid}
use my_rtsp_server.Rtp.Instance.{
  RtpInstance, RtcpInstance, new_over_udp, new_rtcp, set_session_id, set_rtcp_session_id,
}
use my_rtsp_server.Session.{
  TrackId, track_id_none, track_id0, track_id1, MediaSession, add_rtp_instance,
}
use my_rtsp_server.Rtsp.{RtspConnection}
use my_rtsp_server.Rtsp.Scan.{scan_set}
use my_rtsp_server.Rtsp.Ports.{PortPair, create_rtp_rtcp_over_udp}
use my_rtsp_server.Rtsp.World.{World, lookup_media_session, lookup-update_session}
use my_rtsp_server.Rtsp.Answer.{Env, message_buffer, send_message, reply}
use my_rtsp_server.Rtsp.Response.{
  rtp_at, rtcp_at, put_instances, is_some, setup_ports, setup_udp, setup_track, handle_cmd_setup,
}
use my_rtsp_server.Rtsp.Response.Messages.{CanAnswer, Answered, send_message-Answered, message_fits}
use my_rtsp_server.Rtsp.Response.Setup.{
  Returns-×, Kept, send_message-Kept, rtp_at-answered, rtp_at-put_instances,
  put_instances-output_buffer, handle_cmd_setup-setup_track,
}

-- The two instances of a pair of sockets: they send from its ports to the client's.
abbrev pub udp_instance : Env → PortPair → RtspConnection → RtpInstance
udp_instance env ports c =
    set_session_id c.session_id
      (new_over_udp ports.rtp_sockfd ports.rtp_port c.peer_ip c.peer_rtp_port env.unset_channel)

abbrev pub udp_rtcp_instance : Env → PortPair → RtspConnection → RtcpInstance
udp_rtcp_instance env ports c = set_rtcp_session_id c.session_id (
    new_rtcp ports.rtcp_sockfd ports.rtcp_port c.peer_ip c.peer_rtcp_port env.unset_alive
      env.unset_id)

-- What SETUP leaves where it got the pair `ports`.
abbrev pub SetUpUdp :
    Env
    → PortPair
    → List ℕ
    → MediaSession
    → RtspConnection
    → World
    → Bool × RtspConnection × World
    → Type 0
SetUpUdp env ports name s c w (done, c', w') =
    (done ≡ true)
    × (rtp_at c.track_id c' ≡ some (some w.next))
    × (rtcp_at c.track_id c' ≡ some (some (suc w.next)))
    × (w'.instances w.next ≡ some (udp_instance env ports c))
    × (w'.rtcp_instances (suc w.next) ≡ some (udp_rtcp_instance env ports c))
    × (lookup_media_session name w'.sessions ≡ some (add_rtp_instance c.track_id w.next s).1)

rtcp_at-answered :
    (id : TrackId) (c : RtspConnection) (b : Buffer) (sent : List ℕ)
    → rtcp_at id (record c { output_buffer = b; sent = sent }) ≡ rtcp_at id c
rtcp_at-answered track_id_none c b sent = refl
rtcp_at-answered track_id0 c b sent = refl
rtcp_at-answered track_id1 c b sent = refl

rtcp_at-put_instances :
    (id : TrackId) (rtp rtcp : Option ℕ) (c : RtspConnection) {old : Option ℕ}
    → rtcp_at id c ≡ some old
    → rtcp_at id (put_instances id rtp rtcp c) ≡ some rtcp
unfolding put_instances
rtcp_at-put_instances track_id_none rtp rtcp c h = cc
rtcp_at-put_instances track_id0 rtp rtcp c h = refl
rtcp_at-put_instances track_id1 rtp rtcp c h = refl

-- What an answer leaves: the world, and the connection's pointers.
reply-kept :
    (env : Env) (text : List ℕ) (c : RtspConnection) (w : World) (n : ℕ) (id : TrackId)
    → CanAnswer env c n
    → Returns
        (λ r.
          (r.0 ≡ true)
          × (rtp_at id r.1 ≡ rtp_at id c)
          × (rtcp_at id r.1 ≡ rtcp_at id c)
          × (r.2 ≡ w))
        (reply env text c w)
unfolding reply Answered Kept
reply-kept env text c w n id r =
    Returns->>= (λ q. Answered c (message_buffer text) n q × Kept c q) _
      (send_message env (message_buffer text) c) _
      (Returns-× (Answered c (message_buffer text) n) (Kept c)
        (send_message env (message_buffer text) c)
        (send_message-Answered env (message_buffer text) c n r (message_fits text))
        (send_message-Kept env (message_buffer text) c n r (message_fits text)))
      (λ q k. (
        k.0.0,
        ap (rtp_at id) k.1 ∙ rtp_at-answered id c q.1.output_buffer q.1.sent,
        ap (rtcp_at id) k.1 ∙ rtcp_at-answered id c q.1.output_buffer q.1.sent,
        refl,
      ))

ready-put_instances :
    (env : Env) (c : RtspConnection) (n : ℕ) (rtp rtcp : Option ℕ)
    → CanAnswer env c n
    → CanAnswer env (put_instances c.track_id rtp rtcp c) n
ready-put_instances env c n rtp rtcp r =
    let same = put_instances-output_buffer c.track_id rtp rtcp c in
    record {
      allocates = r.allocates;
      valid = subst (λ b. IsValid b) (sym same) r.valid;
      drained = ap peek same ∙ r.drained;
      low = subst (λ (b : Buffer). b.write_index + 2048 < 2 ^ 32) (sym same) r.low;
      takes = r.takes;
    }

-- What SETUP comes to, by whether it got a pair of sockets.
abbrev pub UdpOutcome :
    Option PortPair
    → Env
    → List ℕ
    → MediaSession
    → RtspConnection
    → World
    → Bool × RtspConnection × World
    → Type 0
UdpOutcome none env name s c w r = r ≡ (false, c, w)
UdpOutcome (some ports) env name s c w r = SetUpUdp env ports name s c w r

setup_ports-UdpOutcome :
    (o : Option PortPair) (env : Env) (name : List ℕ) (s : MediaSession) (c : RtspConnection)
    (w : World) (n : ℕ)
    → CanAnswer env c n
    → rtp_at c.track_id c ≡ some none
    → rtcp_at c.track_id c ≡ some none
    → lookup_media_session name w.sessions ≡ some s
    → Returns (UdpOutcome o env name s c w) (setup_ports env name s o c w)
unfolding setup_ports
setup_ports-UdpOutcome none env name s c w n r free free' found = refl
setup_ports-UdpOutcome (some ports) env name s c w n r free free' found =
    let p = w.next in
    let c1 = put_instances c.track_id (some p) (some (suc p)) c in
    Returns-map {Q = SetUpUdp env ports name s c w} _
      (λ t k. (
        k.0,
        k.1 ∙ rtp_at-put_instances c.track_id (some p) (some (suc p)) c free,
        k.2 ∙ rtcp_at-put_instances c.track_id (some p) (some (suc p)) c free',
        ap (λ (w1 : World). w1.instances p) k.3 ∙ rw ((==_iff p p).1 refl) refl,
        ap (λ (w1 : World). w1.rtcp_instances (suc p)) k.3
            ∙ rw ((==_iff (suc p) (suc p)).1 refl) refl,
        ap (λ (w1 : World). lookup_media_session name w1.sessions) k.3
            ∙ lookup-update_session name name (add_rtp_instance c.track_id p s).1 s w.sessions found
            ∙ rw (bytes_eq_refl name) refl,
      ))
      (reply-kept env _ c1 _ n c.track_id (ready-put_instances env c n (some p) (some (suc p)) r))

-- SETUP over UDP, by what `CreateRtpRtcpOverUdp` gives. Without a pair of sockets SETUP fails, and
-- the connection and the world are as they were. With a pair it succeeds: the connection points to
-- a new RTP and a new RTCP instance, these are there with the pair's sockets and ports, the
-- client's address and ports, and the session id, and the session of the URL is as
-- `AddRtpInstance` with the RTP instance leaves it. The conditions: the URL names the session in
-- fewer than 100 bytes, the connection has no instance of the track it asks for, has described a
-- session that is not multicast, does not use RTP over TCP, and can answer (`realloc` does what it
-- documents, its output buffer is valid, empty and has its write index low, and the next write
-- takes some bytes).
pub handle_cmd_setup_udp :
    (env : Env) (name rest own : List ℕ) (s described : MediaSession) (c : RtspConnection)
    (w : World) (n : ℕ)
    → CanAnswer env c n
    → scan_set (λ x. not (x == b'/')) c.suffix ≡ some (name, rest)
    → length name < 100
    → lookup_media_session name w.sessions ≡ some s
    → rtp_at c.track_id c ≡ some none
    → rtcp_at c.track_id c ≡ some none
    → c.session ≡ some own
    → lookup_media_session own w.sessions ≡ some described
    → described.is_start_multicast ≡ false
    → c.is_rtp_over_tcp ≡ false
    → Returns
        (UdpOutcome (create_rtp_rtcp_over_udp env.attempts).ports env name s c w)
        (handle_cmd_setup env c w)
unfolding setup_track setup_udp is_some
handle_cmd_setup_udp env name rest own s described c w n r scanned short found free free' mine known
      single udp =
    subst (Returns (UdpOutcome (create_rtp_rtcp_over_udp env.attempts).ports env name s c w))
      (sym (handle_cmd_setup-setup_track env name rest s c w scanned short found))
      (simp (free, free', mine, known, single, udp)
        (setup_ports-UdpOutcome (create_rtp_rtcp_over_udp env.attempts).ports env name s c w n r
          free free' found))
