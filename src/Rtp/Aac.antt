-- ===== src/Rtp/Aac.antt =====
-- src/net/aac_rtp_sink.cpp: one ADTS frame becomes one packet (RFC 3640, one AU header).
-- A read or a write outside the blocks is `none`, and so is a frame shorter than its ADTS header,
-- whose size would go negative.
pub mod Frames
pub mod Description
use Prim.Native.Nat.{bit_and}
use my_rtsp_server.Prelude.{
  ℕ, ◌+◌, ◌-◌, ◌*◌, ◌/◌, ◌%◌, ◌^◌, Option, none, some, List, [], ◌∷◌, leb, ◌>>=◌, ◌>>◌, assert,
  if◌then◌else◌, u8_mod, u32_mod, length, slice, set,
}
use my_rtsp_server.Rtp.{
  AvFrame, load, RtpPacket, RtpSink, store, send_rtp_packet, next_seq, new_sink,
}

pub record AacRtpSink : Type 0 where
  pub sink : RtpSink
  pub packet : RtpPacket
  pub sample_rate : ℕ
  pub channels : ℕ
  pub fps : ℕ

abbrev pub rtp_payload_type_aac : ℕ
rtp_payload_type_aac = 97

unfoldable pub new : ℕ → RtpPacket → ℕ → AacRtpSink
unfolding new_sink
new fps packet ssrc = record {
  sink = record (new_sink rtp_payload_type_aac ssrc) { marker = 1 };
  packet = packet;
  sample_rate = 44100;
  channels = 2;
  fps = fps;
}

abbrev pub adts_header_size : ℕ
adts_header_size = 7

-- The AU header section: its length in bits, then 13 bits of size and 3 of index.
abbrev au_header : ℕ → List ℕ → List ℕ
au_header frame_size payload =
    set (set (set (set payload 0 0x00) 1 0x10) 2 (bit_and frame_size 0x1FE0 / 2 ^ 5 % u8_mod)) 3
      (bit_and frame_size 0x1F * 2 ^ 3 % u8_mod)

-- `m_sample_rate_ * (1000 / m_fps_) / 1000`, in 32 bits.
abbrev pub time_step : AacRtpSink → ℕ
time_step a = a.sample_rate * (1000 / a.fps) % u32_mod / 1000

pub handle_frame : AvFrame → AacRtpSink → Option AacRtpSink
handle_frame f a = do
  assert (leb adts_header_size f.frame_size)
  let frame_size = f.frame_size - adts_header_size
  bytes ← load f adts_header_size frame_size
  p ← store 4 bytes (record a.packet { payload = au_header frame_size a.packet.payload })
  let (p', s) = send_rtp_packet (record p { size = frame_size + 4 }) a.sink
  some (record a {
    packet = p';
    sink = record s { seq = next_seq s.seq; time_stamp = (s.time_stamp + time_step a) % u32_mod };
  })
