-- ===== src/Rtsp.antt =====
-- include/net/rtsp_connection.h: the state of a client's connection.
-- The parts of src/net/rtsp_connection.cpp are the children: `Scan` what it uses of the C library,
-- `Request` the parser, `Ports` the sockets of a track, `Response` the handlers of the methods,
-- `Connection` the entry point.
pub mod Scan
pub mod Request
pub mod RequestLine
pub mod World
pub mod Ports
pub mod Answer
pub mod Response
pub mod Connection
pub mod Creation
mod Tests
use my_rtsp_server.Prelude.{ℕ, Bool, Option, List}
use my_rtsp_server.Buffer.{Buffer}
use my_rtsp_server.Session.{TrackId}

pub data Method : Type 0 where
  options describe setup play teardown get_parameter rtcp pause none_method : Method

-- `m_session_` has no value before DESCRIBE sets it: `none`. A session is known by its name, under
-- which the server keeps it for good. `sent` are the bytes that the socket took, `disconnections`
-- the calls of `HandleDisconnection`. `session_id` is the bit pattern of the `int32_t`.
pub record RtspConnection : Type 0 where
  pub sock_fd : ℕ
  pub io_event : ℕ
  pub peer_ip : List ℕ
  pub input_buffer : Buffer
  pub output_buffer : Buffer
  pub method : Method
  pub url : List ℕ
  pub suffix : List ℕ
  pub cseq : ℕ
  pub peer_rtp_port : ℕ
  pub peer_rtcp_port : ℕ
  pub track_id : TrackId
  pub rtp0 : Option ℕ
  pub rtp1 : Option ℕ
  pub rtcp0 : Option ℕ
  pub rtcp1 : Option ℕ
  pub session : Option (List ℕ)
  pub session_id : ℕ
  pub is_rtp_over_tcp : Bool
  pub rtp_channel : ℕ
  pub sent : List ℕ
  pub disconnections : ℕ
