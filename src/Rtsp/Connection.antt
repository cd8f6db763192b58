-- ===== src/Rtsp/Connection.antt =====
-- The entry points: `TcpConnection::HandleRead` of src/net/tcp_connection.cpp, and
-- `HandleReadBytes` and `HandleRtpOverTcp` of src/net/rtsp_connection.cpp.
pub mod Interleaved
use my_rtsp_server.Prelude.{
  ℕ, suc, ◌+◌, ◌*◌, ◌<◌, ◌≡◌, Bool, true, false, Option, none, some, List, [], ◌∷◌, ◌==◌, ltb,
  if◌then◌else◌, ◌>>=◌, get_elem?, length,
}
use my_rtsp_server.Buffer
use my_rtsp_server.Buffer.{ReadvResult, Buffer}
use my_rtsp_server.Rtsp.{
  RtspConnection, Method, options, describe, setup, play, teardown, get_parameter, rtcp, pause,
  none_method,
}
use my_rtsp_server.Rtsp.World.{World}
use my_rtsp_server.Rtsp.Request.{parse_request}
use my_rtsp_server.Rtsp.Answer.{Env, Result, handle_cmd_option, handle_cmd_describe}
use my_rtsp_server.Rtsp.Response.{
  handle_cmd_setup, handle_cmd_play, handle_cmd_teardown, handle_cmd_get_paramter, handle_cmd_pause,
}

-- The disconnection callback is called.
pub handle_disconnection : RtspConnection → RtspConnection
handle_disconnection c = record c { disconnections = suc c.disconnections }

-- `Peek()[i]`, which may lie behind the readable bytes; `none` outside the block.
abbrev peek_at : ℕ → Buffer → Option ℕ
peek_at i b = get_elem? b.block (b.read_index + i)

pub handle_rtp_over_tcp : RtspConnection → Option RtspConnection
handle_rtp_over_tcp c = do
  high ← peek_at 2 c.input_buffer
  low ← peek_at 3 c.input_buffer
  let size = high * 256 + low
  if ltb (Buffer.readable_bytes c.input_buffer) (size + 4)
      then some c
      else (do b ← Buffer.retrieve (size + 4) c.input_buffer; some (record c { input_buffer = b }))

dispatch : Env → Method → RtspConnection → World → Result
dispatch env options c w = handle_cmd_option env c w
dispatch env describe c w = handle_cmd_describe env c w
dispatch env setup c w = handle_cmd_setup env c w
dispatch env play c w = handle_cmd_play env c w
dispatch env teardown c w = handle_cmd_teardown env c w
dispatch env get_parameter c w = handle_cmd_get_paramter c w
dispatch env pause c w = handle_cmd_pause env c w
dispatch env rtcp c w = some (false, c, w)
dispatch env none_method c w = some (false, c, w)

-- The request at the front of the buffer is parsed and answered; a failure ends the connection.
handle_request : Env → RtspConnection → World → Option (RtspConnection × World)
handle_request env c w = do
  (parsed, c1) ← parse_request c
  if parsed
      then (do
        (done, c2, w2) ← dispatch env c1.method c1 w
        some (if done then (c2, w2) else (handle_disconnection c2, w2)))
      else some (handle_disconnection c1, w)

pub handle_read_bytes : Env → RtspConnection → World → Option (RtspConnection × World)
handle_read_bytes env c w =
    if c.is_rtp_over_tcp
    then (do
      head ← peek_at 0 c.input_buffer
      if head == b'$'
          then (do c' ← handle_rtp_over_tcp c; some (c', w))
          else handle_request env c w)
    else handle_request env c w

pub handle_read : Env → ReadvResult → RtspConnection → World → Option (RtspConnection × World)
handle_read env input c w = do
  (count, b) ← Buffer.read env.realloc input c.input_buffer
  let c1 = record c { input_buffer = b }
  elim count [
    | none ↦ some (handle_disconnection c1, w)
    | some n ↦ if n == 0 then some (handle_disconnection c1, w) else handle_read_bytes env c1 w
  ]
