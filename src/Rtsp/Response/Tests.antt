-- ===== src/Rtsp/Response/Tests.antt =====
-- The way from SETUP to a packet at a session with one client before, and to the destructor.
use my_rtsp_server.Prelude.{
  ℕ, ◌≡◌, refl, true, none, some, [], ◌∷◌, ◌==◌, if◌then◌else◌, map, arith, Returns, replicate,
  length-replicate,
}
use my_rtsp_server.Prelude.Text.{codes, bytes_eq}
use my_rtsp_server.Buffer.Zeroing.{zeroing_realloc-IsRealloc}
use my_rtsp_server.Rtp.{RtpPacket, payload_size}
use my_rtsp_server.Rtp.Instance.{RtpInstance, rtp_over_udp, send}
use my_rtsp_server.Session.{MediaSession, first, track_id0, get_track}
use my_rtsp_server.Rtsp.Scan.{scan_set}
use my_rtsp_server.Rtsp.World.{World, lookup_media_session}
use my_rtsp_server.Poller
use my_rtsp_server.Poller.{Poller}
use my_rtsp_server.Rtsp.Response.{handle_cmd_setup, handle_cmd_play, delete_connection}
use my_rtsp_server.Rtsp.Response.Closing.{ClosedTwice, handle_cmd_setup-delete_connection}
use my_rtsp_server.Rtsp.Response.Settled.{IsBare}
use my_rtsp_server.Rtsp.Response.Streaming.{Streams, handle_cmd_setup-handle_cmd_play}
use my_rtsp_server.Rtsp.Tests.{live, world, ready_env, asking, asking-CanAnswer}

abbrev watched : MediaSession
watched = record live {
  track0 = record {
    rtp_sink = some 1;
    track_id = track_id0;
    is_alive = true;
    rtp_instances = 3 ∷ [];
  };
}

abbrev watcher : RtpInstance
watcher = record {
  rtp_type = rtp_over_udp;
  sock_fd = 5;
  local_port = 20000;
  dest_addr = record { ip = []; port = 9000 };
  is_alive = true;
  session_id = 1;
  rtp_channel = 0;
}

abbrev watching : World
watching = record world {
  sessions = (codes "live", watched) ∷ [];
  instances = λ p. if p == 3 then some watcher else none;
  next = 4;
  closed = [];
}

abbrev packet : RtpPacket
packet = record {
  header = record {
    csrc_len = 0;
    extension = 0;
    padding = 0;
    version = 2;
    payload_type = 96;
    marker = 0;
    seq = 7;
    timestamp = 3600;
    ssrc = 1;
  };
  payload = replicate payload_size 0;
  size = 1000;
}

asking-IsBare : IsBare asking
asking-IsBare = record { rtp0 = refl; rtp1 = refl; rtcp0 = refl; rtcp1 = refl }

handle_cmd_setup-handle_cmd_play_example :
    Returns
      (λ (done, c1, w1).
        (done ≡ true)
        × Returns
            (λ (done', c2, w2).
              (done' ≡ true)
              × Streams (codes "live") first packet (map (send packet) (watcher ∷ [])) 8 0 w2)
            (handle_cmd_play ready_env c1 w1))
      (handle_cmd_setup ready_env asking watching)
unfolding scan_set lookup_media_session bytes_eq get_track
handle_cmd_setup-handle_cmd_play_example =
    handle_cmd_setup-handle_cmd_play ready_env (codes "live") watched asking watching first
      (watcher ∷ []) packet refl refl refl refl (refl, tt) (omega arith)
      (length-replicate {A = ℕ} payload_size 0) (omega arith) ready_env (codes "/track0")
      (codes "live") watched 20 20 asking-CanAnswer zeroing_realloc-IsRealloc refl refl
      (omega arith) refl refl asking-IsBare refl refl refl refl

abbrev polling : Poller
polling = Poller.new (λ p. Poller.create_new 0 0)

handle_cmd_setup-delete_connection_example :
    Returns
      (λ (done, c1, w1).
        (done ≡ true) × Returns (ClosedTwice 8 4 []) (delete_connection c1 w1 polling))
      (handle_cmd_setup ready_env asking watching)
unfolding scan_set lookup_media_session bytes_eq
handle_cmd_setup-delete_connection_example =
    handle_cmd_setup-delete_connection ready_env (codes "live") (codes "/track0") (codes "live")
      watched watched asking watching polling 20 asking-CanAnswer refl (omega arith) refl refl refl
      asking-IsBare refl refl refl refl
