-- ===== src/Rtsp/Response.antt =====
-- The handlers of src/net/rtsp_connection.cpp, one for each method, and the destructor.
-- `none` is a fault: a pointer that is used without a value or behind a delete, an index outside an
-- array, or an assert of the buffer.
pub mod Messages
pub mod Setup
pub mod SetupUdp
pub mod Settled
pub mod Streaming
pub mod Closing
mod Tests
use my_rtsp_server.Prelude.{
  ℕ, suc, ◌+◌, ◌-◌, ◌%◌, ◌^◌, Bool, true, false, not, ◌||◌, Option, none, some, List, [], ◌∷◌, ◌++◌,
  ◌==◌, ltb, if◌then◌else◌, ◌>>=◌, ◌>>◌, assert, length, take, u8_mod,
}
use my_rtsp_server.Prelude.Text.{codes, crlf, line, decimal, hex, print_more}
use my_rtsp_server.Buffer
use my_rtsp_server.Poller.{Poller}
use my_rtsp_server.TcpConnection
use my_rtsp_server.Rtp.Instance.{
  Ipv4Address, new_over_udp, new_over_tcp, new_rtcp, set_alive, set_session_id, set_rtcp_alive,
  set_rtcp_session_id,
}
use my_rtsp_server.Session.{
  TrackId, track_id_none, track_id0, track_id1, MediaSession, add_rtp_instance, remove_rtp_instance,
  get_multicast_dest_rtp_port,
}
use my_rtsp_server.Session.Sdp.{generate_sdp_description}
use my_rtsp_server.Rtsp.{RtspConnection}
use my_rtsp_server.Rtsp.Scan.{scan_set}
use my_rtsp_server.Rtsp.Ports.{Attempt, PortPair, create_rtp_rtcp_over_udp}
use my_rtsp_server.Rtsp.World.{World, lookup_media_session, update_session, update}
use my_rtsp_server.Rtsp.Answer.{
  signed_decimal, message_buffer, Env, State, Result, send_message, reply, ok_line,
  handle_cmd_option, handle_cmd_describe,
}

-- The elements of the two arrays; the index -1 is outside them.
abbrev pub rtp_at : TrackId → RtspConnection → Option (Option ℕ)
rtp_at track_id_none c = none
rtp_at track_id0 c = some c.rtp0
rtp_at track_id1 c = some c.rtp1

abbrev pub rtcp_at : TrackId → RtspConnection → Option (Option ℕ)
rtcp_at track_id_none c = none
rtcp_at track_id0 c = some c.rtcp0
rtcp_at track_id1 c = some c.rtcp1

pub put_instances : TrackId → Option ℕ → Option ℕ → RtspConnection → RtspConnection
put_instances track_id_none rtp rtcp c = c
put_instances track_id0 rtp rtcp c = record c { rtp0 = rtp; rtcp0 = rtcp }
put_instances track_id1 rtp rtcp c = record c { rtp1 = rtp; rtcp1 = rtcp }

is_some {ℓ} : {A : Type ℓ} → Option A → Bool
is_some none = false
is_some (some a) = true

abbrev session_field : RtspConnection → List ℕ
session_field c = codes "Session: " ++ hex 8 c.session_id ++ crlf

-- The branch of a multicast session.
setup_multicast : Env → MediaSession → RtspConnection → World → Result
unfolding reply
setup_multicast env s c w = do
  port ← get_multicast_dest_rtp_port w.instances c.track_id s
  reply env
      (line "RTP/1.0 200 OK"
        ++ codes "CSeq: "
        ++ signed_decimal c.cseq
        ++ crlf
        ++ line "Transport: RTP/AVP;multicast"
        ++ codes "destination="
        ++ s.multicast_addr
        ++ codes ";source="
        ++ env.local_ip
        ++ codes ";port:"
        ++ decimal port
        ++ codes "-"
        ++ decimal (port + 1)
        ++ line ";ttl=255"
        ++ session_field c
        ++ crlf)
      c w

-- The branch of RTP over the connection's own socket; the new instance is at `w.next`. The result
-- of `AddRtpInstance` is not looked at.
pub setup_tcp : Env → List ℕ → MediaSession → RtspConnection → World → Result
unfolding reply put_instances
setup_tcp env name s c w =
    let p = w.next in
    let i =
      set_session_id c.session_id
        (new_over_tcp c.sock_fd c.rtp_channel env.unset_port env.unset_address) in
    let c1 = put_instances c.track_id (some p) none c in
    let s' = (add_rtp_instance c.track_id p s).1 in
    reply env
      (line "RTSP/1.0 200 OK"
        ++ codes "CSeq: "
        ++ signed_decimal c.cseq
        ++ crlf
        ++ codes "Transport: RTP/AVP/TCP;unicast;interleaved="
        ++ decimal c.rtp_channel
        ++ codes "-"
        ++ decimal ((c.rtp_channel + 1) % u8_mod)
        ++ crlf
        ++ session_field c
        ++ crlf)
      c1
      (record w {
        sessions = update_session name s' w.sessions;
        instances = update p (some i) w.instances;
        next = suc p;
      })

-- The branch of RTP over UDP, from the ports that it got; the new instances are at `w.next` and
-- behind it.
pub setup_ports : Env → List ℕ → MediaSession → Option PortPair → RtspConnection → World → Result
unfolding reply put_instances
setup_ports env name s none c w = some (false, c, w)
setup_ports env name s (some ports) c w =
    let p = w.next in
    let q = suc w.next in
    let i =
      set_session_id c.session_id (
        new_over_udp ports.rtp_sockfd ports.rtp_port c.peer_ip c.peer_rtp_port env.unset_channel) in
    let j = set_rtcp_session_id c.session_id (
      new_rtcp ports.rtcp_sockfd ports.rtcp_port c.peer_ip c.peer_rtcp_port env.unset_alive
        env.unset_id) in
    let c1 = put_instances c.track_id (some p) (some q) c in
    let s' = (add_rtp_instance c.track_id p s).1 in
    reply env
      (ok_line
        ++ decimal c.cseq
        ++ crlf
        ++ codes "Transport: RTP/AVP;unicast;client_port="
        ++ decimal c.peer_rtp_port
        ++ codes "-"
        ++ decimal c.peer_rtcp_port
        ++ codes ";server_port="
        ++ decimal ports.rtp_port
        ++ codes "-"
        ++ decimal ports.rtcp_port
        ++ crlf
        ++ session_field c
        ++ crlf)
      c1
      (record w {
        sessions = update_session name s' w.sessions;
        instances = update p (some i) w.instances;
        rtcp_instances = update q (some j) w.rtcp_instances;
        next = suc q;
      })

setup_udp : Env → List ℕ → MediaSession → RtspConnection → World → Result
unfolding setup_ports
setup_udp env name s c w = setup_ports env name s (create_rtp_rtcp_over_udp env.attempts).ports c w

-- `IsStartMulticast` is asked of `m_session_`, the rest of the session that the URL names.
pub setup_track : Env → List ℕ → MediaSession → RtspConnection → World → Result
unfolding setup_multicast setup_tcp setup_udp is_some
setup_track env name s c w = do
  rtp ← rtp_at c.track_id c
  rtcp ← rtcp_at c.track_id c
  if is_some rtp || is_some rtcp then some (false, c, w) else (do
    own ← c.session
    described ← lookup_media_session own w.sessions
    if described.is_start_multicast
        then setup_multicast env s c w
        else if c.is_rtp_over_tcp
        then setup_tcp env name s c w
        else setup_udp env name s c w)

-- From what the look-up of the name gave.
setup_found : Env → List ℕ → Option MediaSession → RtspConnection → World → Result
unfolding setup_track
setup_found env name none c w = some (false, c, w)
setup_found env name (some s) c w = setup_track env name s c w

-- From what `sscanf(suffix, "%[^/]/", session_name)` found, with an array of 100 bytes.
setup_named : Env → Option (List ℕ × List ℕ) → RtspConnection → World → Result
unfolding setup_found
setup_named env none c w = some (false, c, w)
setup_named env (some (name, rest)) c w =
    assert (ltb (length name) 100)
    >> setup_found env name (lookup_media_session name w.sessions) c w

pub handle_cmd_setup : Env → RtspConnection → World → Result
unfolding setup_named
handle_cmd_setup env c w = setup_named env (scan_set (λ x. not (x == b'/')) c.suffix) c w

-- `SetAlive(true)` through a pointer that may be null.
wake_rtp : Option ℕ → World → Option World
wake_rtp none w = some w
wake_rtp (some p) w = do
  i ← w.instances p
  some (record w { instances = update p (some (set_alive true i)) w.instances })

wake_rtcp : Option ℕ → World → Option World
wake_rtcp none w = some w
wake_rtcp (some p) w = do
  i ← w.rtcp_instances p
  some (record w { rtcp_instances = update p (some (set_rtcp_alive true i)) w.rtcp_instances })

abbrev pub play_text : RtspConnection → List ℕ
play_text c =
    ok_line
    ++ signed_decimal c.cseq
    ++ crlf
    ++ line "Range: npt=0.000-"
    ++ codes "Session: "
    ++ hex 8 c.session_id
    ++ line "; timeout=60"
    ++ crlf

-- The loop over the tracks.
pub wake_all : RtspConnection → World → Option World
wake_all c w = do
  w1 ← wake_rtp c.rtp0 w
  w2 ← wake_rtcp c.rtcp0 w1
  w3 ← wake_rtp c.rtp1 w2
  wake_rtcp c.rtcp1 w3

pub handle_cmd_play : Env → RtspConnection → World → Result
unfolding send_message wake_all
handle_cmd_play env c w = do
  (done, c') ← send_message env (message_buffer (play_text c)) c
  if done then (do w' ← wake_all c w; some (true, c', w')) else some (false, c', w)

abbrev pub bare_reply : RtspConnection → List ℕ
bare_reply c = ok_line ++ signed_decimal c.cseq ++ crlf ++ crlf

pub handle_cmd_teardown : Env → RtspConnection → World → Result
unfolding reply
handle_cmd_teardown env c w = reply env (bare_reply c) c w

-- No answer is sent.
pub handle_cmd_get_paramter : RtspConnection → World → Result
handle_cmd_get_paramter c w = some (true, c, w)

pub handle_cmd_pause : Env → RtspConnection → World → Result
unfolding reply
handle_cmd_pause env c w = reply env (bare_reply c) c w

-- The deletes of the destructor: an instance closes its socket. `none`: the pointer points to no
-- instance, or `m_session_` is read and has no value.
unfoldable pub delete_rtp_instance : Option ℕ → RtspConnection → World → Option World
delete_rtp_instance none c w = some w
delete_rtp_instance (some p) c w = do
  name ← c.session
  s ← lookup_media_session name w.sessions
  i ← w.instances p
  some (record w {
    sessions = update_session name (remove_rtp_instance p s).1 w.sessions;
    instances = update p none w.instances;
    closed = i.sock_fd ∷ w.closed;
  })

unfoldable pub delete_rtcp_instance : Option ℕ → World → Option World
delete_rtcp_instance none w = some w
delete_rtcp_instance (some q) w = do
  i ← w.rtcp_instances q
  some (record w {
    rtcp_instances = update q none w.rtcp_instances;
    closed = i.local_sockfd ∷ w.closed;
  })

-- One round of the destructor's loop.
unfoldable pub release_track : Option ℕ → Option ℕ → RtspConnection → World → Option World
unfolding delete_rtp_instance delete_rtcp_instance
release_track rtp rtcp c w = do w1 ← delete_rtp_instance rtp c w; delete_rtcp_instance rtcp w1

-- `~RtspConnection`.
unfoldable pub destroy : RtspConnection → World → Option World
unfolding release_track
destroy c w = do w1 ← release_track c.rtp0 c.rtcp0 c w; release_track c.rtp1 c.rtcp1 c w1

-- `delete` of a connection: `~TcpConnection` follows, and the destructor of its socket.
unfoldable pub delete_connection : RtspConnection → World → Poller → Option (World × Poller)
unfolding destroy TcpConnection.disconnect
delete_connection c w poller = do
  w1 ← destroy c w
  some (record w1 { closed = c.sock_fd ∷ w1.closed }, TcpConnection.disconnect c.io_event poller)
