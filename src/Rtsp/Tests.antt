-- ===== src/Rtsp/Tests.antt =====
-- The theorems on the connections at small runs.
use my_rtsp_server.Prelude.{
  ◌==◌, ◌++◌, ℕ, ◌+◌, ◌≡◌, refl, true, false, none, some, List, [], ◌∷◌, arith, Returns, replicate,
}
use my_rtsp_server.Prelude.Text.{codes, bytes_eq}
use my_rtsp_server.Buffer.{Buffer, peek}
use my_rtsp_server.Buffer.Contents.{IsValid}
use my_rtsp_server.Session.{MediaSession, track_id0, track_id1}
use my_rtsp_server.Rtsp.{RtspConnection, none_method}
use my_rtsp_server.Rtsp.World.{World, lookup_media_session}
use my_rtsp_server.Rtp.Instance.{rtp_over_udp}
use my_rtsp_server.Buffer.Zeroing.{zeroing_realloc, zeroing_realloc-IsRealloc}
use my_rtsp_server.Rtsp.Answer.{Env}
use my_rtsp_server.Rtsp.Response.{handle_cmd_play, handle_cmd_setup}
use my_rtsp_server.Rtsp.Response.Messages.{CanAnswer, woken, handle_cmd_play_lem}
use my_rtsp_server.Rtsp.Scan.{scan_set}
use my_rtsp_server.Rtsp.Request.Headers.{cseq_line}
use my_rtsp_server.Rtsp.Response.SetupUdp.{UdpOutcome, handle_cmd_setup_udp}
use my_rtsp_server.Rtsp.Connection.{handle_read_bytes}
use my_rtsp_server.Rtsp.Connection.Interleaved.{handle_read_bytes-frame}
use my_rtsp_server.Rtsp.Ports.{
  Attempt, create_rtp_rtcp_over_udp, open_count, close_count, held, IsPortPair,
  create_rtp_rtcp_over_udp_balanced,
}

-- The second bind of the first round fails.
abbrev two_rounds : List Attempt
two_rounds =
    record {
      rtp_socket = some 5;
      rtcp_socket = some 6;
      random = 3;
      bind_rtp = true;
      bind_rtcp = false;
    }
    ∷ record {
      rtp_socket = some 5;
      rtcp_socket = some 6;
      random = 40;
      bind_rtp = true;
      bind_rtcp = true;
    }
    ∷ []

create_rtp_rtcp_over_udp_balanced_example :
    let o = create_rtp_rtcp_over_udp two_rounds in
    (open_count 5 o.calls ≡ close_count 5 o.calls + held 5 o.ports) × IsPortPair o.ports
create_rtp_rtcp_over_udp_balanced_example = create_rtp_rtcp_over_udp_balanced 5 two_rounds

abbrev pub live : MediaSession
live = record {
  session_name = codes "live";
  sdp = [];
  track0 = record { rtp_sink = none; track_id = track_id0; is_alive = false; rtp_instances = [] };
  track1 = record { rtp_sink = none; track_id = track_id1; is_alive = false; rtp_instances = [] };
  is_start_multicast = false;
  multicast_addr = [];
  multicast_rtp0 = none;
  multicast_rtp1 = none;
  multicast_rtcp0 = none;
  multicast_rtcp1 = none;
}

-- A frame of three bytes on channel 1, and the beginning of a request.
abbrev pub input : Buffer
input = record {
  block = b'$' ∷ 1 ∷ 0 ∷ 3 ∷ 128 ∷ 201 ∷ 7 ∷ b'P' ∷ b'L' ∷ [];
  buffer_size = 9;
  read_index = 0;
  write_index = 9;
}

abbrev pub connection : RtspConnection
connection = record {
  sock_fd = 8;
  io_event = 0;
  peer_ip = codes "10.0.0.2";
  input_buffer = input;
  output_buffer = record { block = []; buffer_size = 0; read_index = 0; write_index = 0 };
  method = none_method;
  url = [];
  suffix = [];
  cseq = 0;
  peer_rtp_port = 0;
  peer_rtcp_port = 0;
  track_id = track_id0;
  rtp0 = none;
  rtp1 = none;
  rtcp0 = none;
  rtcp1 = none;
  session = none;
  session_id = 1;
  is_rtp_over_tcp = true;
  rtp_channel = 0;
  sent = [];
  disconnections = 0;
}

abbrev pub world : World
world = record {
  sessions = [];
  instances = λ p. none;
  rtcp_instances = λ p. none;
  next = 0;
  closed = [];
}

abbrev pub env : Env
env = record {
  realloc = λ d n. replicate n 0;
  now = 0;
  local_ip = [];
  media_description = λ i port. [];
  attribute = λ i. [];
  wrote = none;
  attempts = [];
  unset_channel = 0;
  unset_port = 0;
  unset_address = record { ip = []; port = 0 };
  unset_alive = false;
  unset_id = 0;
}

handle_read_bytes-frame_example :
    Returns
      (λ r.
        let (c', w') = r in
        (c' ≡ record connection { input_buffer = c'.input_buffer })
        × (w' ≡ world)
        × IsValid c'.input_buffer
        × (peek c'.input_buffer ≡ codes "PL"))
      (handle_read_bytes env connection world)
handle_read_bytes-frame_example =
    handle_read_bytes-frame env connection world 1 (128 ∷ 201 ∷ 7 ∷ []) (codes "PL")
      (record { sized = refl; ordered = omega arith; within = omega arith; small = omega arith })
      refl (omega arith) refl

abbrev pub ready_env : Env
ready_env = record env { realloc = zeroing_realloc; wrote = some 20 }

abbrev pub ready : RtspConnection
ready = record connection { rtp0 = some 3; rtcp0 = some 4; session_id = 0x1F }

abbrev ready_world : World
ready_world = record world {
  instances = λ p. some (record {
    rtp_type = rtp_over_udp;
    sock_fd = p;
    local_port = 20000;
    dest_addr = record { ip = []; port = 9000 };
    is_alive = false;
    session_id = 1;
    rtp_channel = 0;
  });
  rtcp_instances = λ p. some (record {
    local_sockfd = p;
    local_port = 20001;
    dest_addr = record { ip = []; port = 9001 };
    is_alive = false;
    session_id = 1;
  });
}

ready-CanAnswer : CanAnswer ready_env ready 20
ready-CanAnswer = record {
  allocates = zeroing_realloc-IsRealloc;
  valid = record { sized = refl; ordered = omega arith; within = omega arith; small = omega arith };
  drained = refl;
  low = omega arith;
  takes = refl;
}

handle_cmd_play_lem_example :
    Returns
      (λ r.
        let (done, c', w') = r in
        (done ≡ true) × (w'.instances 3 ≡ woken false (woken (3 == 3) (ready_world.instances 3))))
      (handle_cmd_play ready_env ready ready_world)
handle_cmd_play_lem_example =
    handle_cmd_play_lem ready_env ready ready_world 20 3 ready-CanAnswer (_, refl) tt (_, refl) tt

-- A client that asks for the first track of the session.
abbrev pub asking : RtspConnection
asking = record ready {
  suffix = codes "live/track0";
  rtp0 = none;
  rtcp0 = none;
  session = some (codes "live");
}

abbrev serving : World
serving = record world { sessions = (codes "live", live) ∷ [] }

pub asking-CanAnswer : CanAnswer ready_env asking 20
asking-CanAnswer = record {
  allocates = zeroing_realloc-IsRealloc;
  valid = record { sized = refl; ordered = omega arith; within = omega arith; small = omega arith };
  drained = refl;
  low = omega arith;
  takes = refl;
}

-- A server that gets the sockets 10 and 11 in the first round, and a client that asks for RTP over
-- UDP.
abbrev udp_env : Env
udp_env = record ready_env {
  attempts =
      record {
        rtp_socket = some 10;
        rtcp_socket = some 11;
        random = 20000;
        bind_rtp = true;
        bind_rtcp = true;
      }
      ∷ [];
}

abbrev udp_asking : RtspConnection
udp_asking = record asking { is_rtp_over_tcp = false }

udp_asking-CanAnswer : CanAnswer udp_env udp_asking 20
udp_asking-CanAnswer = record {
  allocates = asking-CanAnswer.allocates;
  valid = asking-CanAnswer.valid;
  drained = asking-CanAnswer.drained;
  low = asking-CanAnswer.low;
  takes = asking-CanAnswer.takes;
}

handle_cmd_setup_udp_example :
    Returns
      (UdpOutcome
        (create_rtp_rtcp_over_udp udp_env.attempts).ports
        udp_env
        (codes "live")
        live
        udp_asking
        serving)
      (handle_cmd_setup udp_env udp_asking serving)
unfolding scan_set lookup_media_session bytes_eq
handle_cmd_setup_udp_example =
    handle_cmd_setup_udp udp_env (codes "live") (codes "/track0") (codes "live") live live
      udp_asking serving 20 udp_asking-CanAnswer refl (omega arith) refl refl refl refl refl refl
      refl

-- A message whose first header is another.
abbrev message : List ℕ
message = codes "A: b" ++ (13 ∷ 10 ∷ cseq_line 302 (codes "C: d"))
