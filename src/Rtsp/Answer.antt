-- ===== src/Rtsp/Answer.antt =====
-- The answers of src/net/rtsp_connection.cpp: `SendMessage`, and the handlers that change neither
-- the tracks nor the instances. `none` is a fault.
use my_rtsp_server.Prelude.{
  ℕ, ◌-◌, ◌^◌, Bool, true, false, Option, none, some, List, [], ◌++◌, ltb, if◌then◌else◌, ◌>>=◌,
  length, take,
}
use my_rtsp_server.Prelude.Text.{codes, crlf, line, decimal, print_more}
use my_rtsp_server.Buffer
use my_rtsp_server.Rtp.Instance.{Ipv4Address}
use my_rtsp_server.Session.Sdp.{generate_sdp_description}
use my_rtsp_server.Rtsp.{RtspConnection}
use my_rtsp_server.Rtsp.Ports.{Attempt}
use my_rtsp_server.Rtsp.World.{World, lookup_media_session, update_session}

-- `%d` of a 32-bit word.
pub signed_decimal : ℕ → List ℕ
signed_decimal n = if ltb n (2 ^ 31) then decimal n else codes "-" ++ decimal (2 ^ 32 - n)

-- `snprintf(m_buffer_, sizeof(m_buffer_), ...)`.
abbrev pub message_buffer : List ℕ → List ℕ
message_buffer text = print_more 2048 [] text

-- What a handler is given by its surroundings: the C library's `realloc`, the clock, the local
-- address, the virtual functions of the sinks, what the next `write` to the socket returns (`none`
-- is -1), the answers of the system to the socket calls, and what an instance leaves unset.
pub record Env : Type 0 where
  pub realloc : List ℕ → ℕ → List ℕ
  pub now : ℕ
  pub local_ip : List ℕ
  pub media_description : ℕ → ℕ → List ℕ
  pub attribute : ℕ → List ℕ
  pub wrote : Option ℕ
  pub attempts : List Attempt
  pub unset_channel : ℕ
  pub unset_port : ℕ
  pub unset_address : Ipv4Address
  pub unset_alive : Bool
  pub unset_id : ℕ

abbrev pub State : Type 0
State = RtspConnection × World

abbrev pub Result : Type 0
Result = Option (Bool × RtspConnection × World)

-- What the socket does not take of a message is dropped.
unfoldable pub send_message : Env → List ℕ → RtspConnection → Option (Bool × RtspConnection)
send_message env text c = do
  b ← Buffer.append env.realloc text c.output_buffer
  let done : Bool = elim env.wrote [ none ↦ false | some _ ↦ true ]
  let taken : List ℕ = elim env.wrote [ none ↦ [] | some n ↦ take n (Buffer.write b) ]
  some (done, record c { output_buffer = Buffer.retrieve_all b; sent = c.sent ++ taken })

-- Send, and leave the world as it is.
unfoldable pub reply : Env → List ℕ → RtspConnection → World → Result
unfolding send_message
reply env text c w = do (done, c') ← send_message env (message_buffer text) c; some (done, c', w)

abbrev pub ok_line : List ℕ
ok_line = line "RTSP/1.0 200 OK" ++ codes "CSeq: "

pub handle_cmd_option : Env → RtspConnection → World → Result
unfolding reply
handle_cmd_option env c w =
    reply env
      (ok_line
        ++ decimal c.cseq
        ++ crlf
        ++ line "Public: OPTIONS, DESCRIBE, SETUP, TEARDOWN, PLAY"
        ++ crlf)
      c w

pub handle_cmd_describe : Env → RtspConnection → World → Result
unfolding reply
handle_cmd_describe env c w = elim (lookup_media_session c.suffix w.sessions) [
  | none ↦ some (false, c, w)
  | some s ↦ do
    (sdp, s') ←
        generate_sdp_description env.now env.local_ip env.media_description env.attribute
          w.instances s
    reply env
        (ok_line
          ++ decimal c.cseq
          ++ crlf
          ++ codes "Content-Length: "
          ++ decimal (length sdp)
          ++ crlf
          ++ line "Content-Type: application/sdp"
          ++ crlf
          ++ sdp)
        (record c { session = some c.suffix })
        (record w { sessions = update_session c.suffix s' w.sessions })
]
