-- ===== src/Session/Tests.antt =====
-- The theorems on a session at one with a live track of two instances.
use my_rtsp_server.Prelude.{
  ℕ, ◌+◌, ◌≡◌, refl, true, false, ◌&&◌, none, some, List, [], ◌∷◌, ltb, ◌==◌, if◌then◌else◌,
}
use my_rtsp_server.Prelude.Text.{codes}
use my_rtsp_server.Rtp.{RtpPacket}
use my_rtsp_server.Rtp.Instance.{RtpInstance, rtp_over_tcp, rtp_over_udp}
use my_rtsp_server.Session.{MediaSession, Instances, track_id0, track_id1, remove_rtp_instance}
use my_rtsp_server.Session.Tracks.{IsTidy, registered, remove_rtp_instance-registered}

abbrev pub live : MediaSession
live = record {
  session_name = codes "live";
  sdp = [];
  track0 = record {
    rtp_sink = some 1;
    track_id = track_id0;
    is_alive = true;
    rtp_instances = 7 ∷ 8 ∷ [];
  };
  track1 = record { rtp_sink = none; track_id = track_id1; is_alive = false; rtp_instances = [] };
  is_start_multicast = false;
  multicast_addr = [];
  multicast_rtp0 = none;
  multicast_rtp1 = none;
  multicast_rtcp0 = none;
  multicast_rtcp1 = none;
}

pub live-IsTidy : IsTidy live
live-IsTidy = record {
  ids = record { id0 = refl; id1 = refl };
  quiet0 = λ h. cc;
  quiet1 = λ h. refl;
}

remove_rtp_instance-registered_example :
    let (done, s') = remove_rtp_instance 7 live in
    IsTidy s'
    × (done ≡ ltb 0 (registered 7 live))
    × (registered 8 live ≡ registered 8 s' + (if done && (7 == 8) then 1 else 0))
remove_rtp_instance-registered_example = remove_rtp_instance-registered 7 8 live live-IsTidy

abbrev pub asleep : RtpInstance
asleep = record {
  rtp_type = rtp_over_udp;
  sock_fd = 5;
  local_port = 20000;
  dest_addr = record { ip = []; port = 9000 };
  is_alive = false;
  session_id = 1;
  rtp_channel = 0;
}

abbrev pub awake : RtpInstance
awake = record asleep { rtp_type = rtp_over_tcp; sock_fd = 6; is_alive = true }

abbrev pub heap : Instances
heap p = if p == 7 then some asleep else if p == 8 then some awake else none

abbrev pub packet : RtpPacket
packet = record {
  header = record {
    csrc_len = 0;
    extension = 0;
    padding = 0;
    version = 2;
    payload_type = 96;
    marker = 0;
    seq = 0;
    timestamp = 0;
    ssrc = 0;
  };
  payload = 1 ∷ 2 ∷ [];
  size = 14;
}

abbrev media : ℕ → ℕ → List ℕ
media sink port = codes "m=video 0 RTP/AVP 96"

abbrev rtpmap : ℕ → List ℕ
rtpmap sink = codes "a=rtpmap:96 H264/90000"

abbrev address : List ℕ
address = codes "10.0.0.1"
