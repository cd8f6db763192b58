-- ===== src/Rtp/H264.antt =====
-- src/net/h264rtp_sink.cpp: one NAL unit becomes one packet, or several fragments (FU-A).
-- A read or a write outside the blocks is `none`. Frame sizes are natural numbers.
pub mod Description
pub mod Fragments
pub mod Sent
pub mod Frames
pub mod Numbers
use Prim.Native.Nat.{bit_and, bit_or}
use my_rtsp_server.Prelude.{
  ℕ, zero, suc, ◌+◌, ◌-◌, ◌*◌, ◌/◌, ◌%◌, ◌^◌, ◌≡◌, Bool, Option, none, some, List, [], ◌∷◌, ◌++◌,
  leb, ltb, ◌==◌, ◌&&◌, ◌||◌, if◌then◌else◌, ◌>>=◌, u32_mod, length, take, drop, slice, overwrite,
  get_elem?, set,
}
use my_rtsp_server.Rtp.{
  AvFrame, load, RtpPacket, RtpSink, store, send_rtp_packet, next_seq, rtp_max_pkt_size, new_sink,
}

pub record H264RtpSink : Type 0 where
  pub sink : RtpSink
  pub packet : RtpPacket
  pub clock_rate : ℕ
  pub fps : ℕ

abbrev pub rtp_payload_type_h264 : ℕ
rtp_payload_type_h264 = 96

unfoldable pub new : ℕ → RtpPacket → ℕ → H264RtpSink
unfolding new_sink
new fps packet ssrc = record {
  sink = new_sink rtp_payload_type_h264 ssrc;
  packet = packet;
  clock_rate = 90000;
  fps = fps;
}

-- `m_size_ = size; SendRtpPacket(&m_rtp_packet_); m_seq_++`.
send_sized : ℕ → RtpPacket → H264RtpSink → H264RtpSink
unfolding send_rtp_packet
send_sized size p h =
    let (p', s) = send_rtp_packet (record p { size = size }) h.sink in
    record h { packet = p'; sink = record s { seq = next_seq s.seq } }

-- `payload[0]` and `payload[1]` set, and `n` bytes of the frame copied behind them.
send_fragment : AvFrame → ℕ → ℕ → ℕ → ℕ → H264RtpSink → Option H264RtpSink
unfolding load store send_sized
send_fragment f first second pos n h = do
  bytes ← load f pos n
  p ← store 2 bytes (record h.packet { payload = set (set h.packet.payload 0 first) 1 second })
  some (send_sized (n + 2) p h)

abbrev pub fu_indicator : ℕ → ℕ
fu_indicator nalu_type = bit_or (bit_and nalu_type 0x60) 28

-- The second byte of fragment `i` of the loop.
abbrev pub fu_header : ℕ → ℕ → ℕ → ℕ → ℕ
fu_header nalu_type pkt_num remain i =
    let plain = bit_and nalu_type 0x1f in
    if i == 0
    then bit_or plain 0x80
    else if (remain == 0) && (i == pkt_num - 1)
    then bit_or plain 0x40
    else plain

-- `for(i = 0; i < pkt_num; i++)`, by the rounds left.
fragment_loop : AvFrame → (ℕ → ℕ) → ℕ → ℕ → ℕ → ℕ → H264RtpSink → Option H264RtpSink
unfolding send_fragment
fragment_loop f second first zero i pos h = some h
fragment_loop f second first (suc n) i pos h = do
  h' ← send_fragment f first (second i) pos rtp_max_pkt_size h
  fragment_loop f second first n (i + 1) (pos + rtp_max_pkt_size) h'

advance_time : H264RtpSink → H264RtpSink
advance_time h = record h {
  sink = record (h.sink) { time_stamp = (h.sink.time_stamp + h.clock_rate / h.fps) % u32_mod };
}

pub send_whole : AvFrame → ℕ → H264RtpSink → Option H264RtpSink
unfolding load store send_sized advance_time
send_whole f nalu_type h = do
  bytes ← load f 0 f.frame_size
  p ← store 0 bytes h.packet
  let h' = send_sized f.frame_size p h
  let kind = bit_and nalu_type 0x1F
  some (if (kind == 7) || (kind == 8) then h' else advance_time h')

pub send_fragments : AvFrame → ℕ → H264RtpSink → Option H264RtpSink
unfolding fragment_loop send_fragment advance_time
send_fragments f nalu_type h = do
  let pkt_num = f.frame_size / rtp_max_pkt_size
  let remain = f.frame_size % rtp_max_pkt_size
  let first = fu_indicator nalu_type
  h' ← fragment_loop f (fu_header nalu_type pkt_num remain) first pkt_num 0 1 h
  h'' ←
      (if ltb 0 remain
        then send_fragment f first 0x40 (1 + pkt_num * rtp_max_pkt_size) remain h'
        else some h')
  some (advance_time h'')

pub handle_frame : AvFrame → H264RtpSink → Option H264RtpSink
unfolding send_whole send_fragments
handle_frame f h = do
  nalu_type ← get_elem? f.block f.start
  if leb f.frame_size rtp_max_pkt_size
      then send_whole f nalu_type h
      else send_fragments f nalu_type h
