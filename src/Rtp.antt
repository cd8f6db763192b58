-- ===== src/Rtp.antt =====
-- include/net/rtp.h and include/net/rtpsink.h: RTP packets, and what a sink does with one.
-- The callback that a sink is given (`MediaSession::SendPacketCallback`) is a trace: the list of
-- what it was called with. The sinks of the two codecs are the children, and the receiving ends.
pub mod H264
pub mod Aac
pub mod Instance
pub mod Tests
use my_rtsp_server.Prelude.{
  ℕ, ◌+◌, ◌-◌, ◌*◌, ◌/◌, ◌%◌, ◌^◌, ◌≡◌, Bool, Option, none, some, List, [], ◌∷◌, ◌++◌, leb,
  if◌then◌else◌, u8_mod, u16_mod, u32_mod, length, take, drop, slice, overwrite,
}

abbrev pub rtp_version : ℕ
rtp_version = 2

abbrev pub rtp_header_size : ℕ
rtp_header_size = 12

abbrev pub rtp_max_pkt_size : ℕ
rtp_max_pkt_size = 1400

-- The bit fields hold what their width leaves of a value; `seq`, `timestamp` and `ssrc` are the
-- values that `htons` and `htonl` put in network order.
pub record RtpHeader : Type 0 where
  pub csrc_len : ℕ
  pub extension : ℕ
  pub padding : ℕ
  pub version : ℕ
  pub payload_type : ℕ
  pub marker : ℕ
  pub seq : ℕ
  pub timestamp : ℕ
  pub ssrc : ℕ

-- The bytes of the block behind the four for an interleaved frame and the twelve of the header.
abbrev pub payload_size : ℕ
payload_size = rtp_header_size + rtp_max_pkt_size + 100 - 4 - rtp_header_size

pub record RtpPacket : Type 0 where
  pub header : RtpHeader
  pub payload : List ℕ
  pub size : ℕ

-- What `memcpy` stores at a place of the payload; `none` where it would leave the block.
pub store : ℕ → List ℕ → RtpPacket → Option RtpPacket
store i bytes p =
    if leb (i + length bytes) payload_size
    then some (record p { payload = overwrite p.payload i bytes })
    else none

-- A header, and the bytes of the payload that `m_size_` counts.
pub record Datagram : Type 0 where
  pub header : RtpHeader
  pub body : List ℕ

pub datagram : RtpPacket → Datagram
datagram p = record { header = p.header; body = take (p.size - rtp_header_size) p.payload }

pub record RtpSink : Type 0 where
  pub csrc_len : ℕ
  pub extension : ℕ
  pub padding : ℕ
  pub version : ℕ
  pub payload_type : ℕ
  pub marker : ℕ
  pub seq : ℕ
  pub time_stamp : ℕ
  pub ssrc : ℕ
  pub has_callback : Bool
  pub sent : List Datagram

abbrev pub header_of : RtpSink → RtpHeader
header_of s = record {
  csrc_len = s.csrc_len % 2 ^ 4;
  extension = s.extension % 2;
  padding = s.padding % 2;
  version = s.version % 2 ^ 2;
  payload_type = s.payload_type % 2 ^ 7;
  marker = s.marker % 2;
  seq = s.seq;
  timestamp = s.time_stamp;
  ssrc = s.ssrc;
}

-- The constructor; `ssrc` is what `rand()` returned.
pub new_sink : ℕ → ℕ → RtpSink
new_sink payload_type ssrc = record {
  csrc_len = 0;
  extension = 0;
  padding = 0;
  version = rtp_version;
  payload_type = payload_type % u8_mod;
  marker = 0;
  seq = 0;
  time_stamp = 0;
  ssrc = ssrc;
  has_callback = Bool.false;
  sent = [];
}

unfoldable pub set_send_frame_callback : RtpSink → RtpSink
set_send_frame_callback s = record s { has_callback = Bool.true }

-- The packet is the object's own, and keeps its header and its size.
pub send_rtp_packet : RtpPacket → RtpSink → RtpPacket × RtpSink
unfolding datagram
send_rtp_packet p s =
    let p' = record p { header = header_of s; size = p.size + rtp_header_size } in
    (p', (if s.has_callback then record s { sent = s.sent ++ (datagram p' ∷ []) } else s))

abbrev pub next_seq : ℕ → ℕ
next_seq seq = (seq + 1) % u16_mod

-- `AVFrame` of include/net/media_source.h: `m_frame_` points `start` bytes into the block
-- `m_buffer_`.
pub record AvFrame : Type 0 where
  pub block : List ℕ
  pub start : ℕ
  pub frame_size : ℕ

-- `n` bytes from `m_frame_ + pos` on; `none` where the read leaves the block.
pub load : AvFrame → ℕ → ℕ → Option (List ℕ)
load f pos n =
    if leb (f.start + pos + n) (length f.block)
    then some (slice (f.start + pos) n f.block)
    else none
