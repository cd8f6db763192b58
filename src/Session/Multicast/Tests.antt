-- ===== src/Session/Multicast/Tests.antt =====
-- Multicast started on a session with a live track of two instances.
use my_rtsp_server.Prelude.{ℕ, ◌≡◌, refl, true, none, some, List, [], ◌∷◌, arith}
use my_rtsp_server.Session.{
  MediaSession, Instances, first, track_id0, track_id1, send_packet, get_multicast_dest_rtp_port,
}
use my_rtsp_server.Session.Tests.{live, live-IsTidy, heap, packet, asleep, awake}
use my_rtsp_server.Session.Multicast.{Draws, Rtcps, multicast_port, start_multicast}
use my_rtsp_server.Session.Multicast.Silence.{start_multicast_silent}

-- The port is 65534.
abbrev draws : Draws
draws = record {
  addr_rand = 5;
  port_rand = 65534;
  rtp_sockfd1 = 20;
  rtp_sockfd2 = 21;
  rtcp_sockfd1 = 22;
  rtcp_sockfd2 = 23;
  rtp1 = 30;
  rtp2 = 31;
  rtcp1 = 32;
  rtcp2 = 33;
  unset_channel = 0;
  unset_alive = true;
  unset_id = 0;
}

abbrev ntoa : ℕ → List ℕ
ntoa a = a ∷ []

start_multicast_silent_example :
    (s' : MediaSession) × (heap' : Instances) × (rtcps' : Rtcps) × (start_multicast ntoa draws heap
        (λ p. none)
        live
      ≡ some (s', heap', rtcps'))
    × (s'.is_start_multicast ≡ true)
    × (get_multicast_dest_rtp_port heap' track_id0 s' ≡ some 65534)
    × (get_multicast_dest_rtp_port heap' track_id1 s' ≡ some 0)
    × (send_packet heap' first packet s' ≡ send_packet heap first packet live)
unfolding multicast_port
start_multicast_silent_example =
    start_multicast_silent ntoa draws heap (λ p. none) live live-IsTidy.ids refl refl (omega arith)
      first (asleep ∷ awake ∷ []) packet (refl, (refl, tt)) (omega arith) (omega arith)
      (omega arith) (omega arith)
