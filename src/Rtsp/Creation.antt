-- ===== src/Rtsp/Creation.antt =====
-- The constructors of src/net/rtsp_connection.cpp and src/net/tcp_connection.cpp.
use my_rtsp_server.Prelude.{ℕ, false, none, List, []}
use my_rtsp_server.Buffer
use my_rtsp_server.Poller.{Poller}
use my_rtsp_server.Session.{track_id_none}
use my_rtsp_server.Sockets.System.{Call, Kernel, Sys, pure, ◌>>=◌, ◌>>◌, call}
use my_rtsp_server.TcpConnection.{connect}
use my_rtsp_server.Rtsp.{RtspConnection, none_method}

-- What the constructor leaves unset, `malloc`'s memory among it.
pub record Unset : Type 0 where
  pub cseq : ℕ
  pub peer_rtp_port : ℕ
  pub peer_rtcp_port : ℕ
  pub rtp_channel : ℕ
  pub input_block : List ℕ
  pub output_block : List ℕ

-- `random` is what `rand()` gave, and `p` the address of the event.
unfoldable pub new_connection : Unset → ℕ → List ℕ → ℕ → ℕ → RtspConnection
new_connection unset sockfd peer_ip random p = record {
  sock_fd = sockfd;
  io_event = p;
  peer_ip = peer_ip;
  input_buffer = Buffer.new unset.input_block;
  output_buffer = Buffer.new unset.output_block;
  method = none_method;
  url = [];
  suffix = [];
  cseq = unset.cseq;
  peer_rtp_port = unset.peer_rtp_port;
  peer_rtcp_port = unset.peer_rtcp_port;
  track_id = track_id_none;
  rtp0 = none;
  rtp1 = none;
  rtcp0 = none;
  rtcp1 = none;
  session = none;
  session_id = random;
  is_rtp_over_tcp = false;
  rtp_channel = unset.rtp_channel;
  sent = [];
  disconnections = 0;
}

-- `GetPeerId` does not look at what `getpeername` returns.
unfoldable pub get_peer_id : Kernel → ℕ → Sys (List ℕ)
get_peer_id os sockfd = do
  call os (Call.getpeername sockfd)
  address ← (λ t. (os.peer t sockfd, t))
  pure (os.inet_ntoa address.addr)

-- `CreateNew`: the connection is at `this`, and its event at `p`.
unfoldable pub create_new : Kernel → Unset → ℕ → ℕ → ℕ → ℕ → Poller → Sys (RtspConnection × Poller)
unfolding new_connection get_peer_id
create_new os unset random sockfd this p poller = do
  peer_ip ← get_peer_id os sockfd
  pure (new_connection unset sockfd peer_ip random p, connect sockfd this p poller)
