-- ===== src/Rtp/Instance/Wire.antt =====
-- What a receiver reads from the bytes that are sent: the header, and the interleaved frame.
use my_rtsp_server.Prelude.{
  ℕ, suc, ◌+◌, ◌*◌, ◌/◌, ◌%◌, ◌^◌, ◌≤◌, ◌<◌, ◌≡◌, Option, none, some, List, [], ◌∷◌, ◌++◌, arith,
  u8_mod, length, take, drop, get_or, leb, ◌==◌, if◌then◌else◌, take_all, drop_all, length-take,
  le→leb,
}
use my_rtsp_server.Prelude.Bits.{high_byte, low_byte}
use my_rtsp_server.Rtp.{RtpHeader, RtpPacket, RtpSink, header_of, payload_size, rtp_header_size}
use my_rtsp_server.Rtp.Instance.{RtpInstance, rtp_over_tcp, header_bytes, packet_bytes, write, send}

-- The fields of RFC 3550, section 5.1, read from the front of a packet.
pub read_header : List ℕ → RtpHeader
read_header l = record {
  csrc_len = byte 0 % 16;
  extension = byte 0 / 16 % 2;
  padding = byte 0 / 32 % 2;
  version = byte 0 / 64;
  payload_type = byte 1 % 128;
  marker = byte 1 / 128;
  seq = byte 2 * 256 + byte 3;
  timestamp = ((byte 4 * 256 + byte 5) * 256 + byte 6) * 256 + byte 7;
  ssrc = ((byte 8 * 256 + byte 9) * 256 + byte 10) * 256 + byte 11;
}
  where
    byte : ℕ → ℕ
    byte i = get_or l i 0

pub record IsWord (s : RtpSink) : Type 0 where
  pub seq_small : s.seq < 2 ^ 16
  pub stamp_small : s.time_stamp < 2 ^ 32
  pub ssrc_small : s.ssrc < 2 ^ 32

-- A receiver reads the header that a sink wrote, whatever follows it, where the sink's number,
-- time stamp and source id are machine words.
pub read_header-header_bytes :
    (s : RtpSink) (rest : List ℕ)
    → IsWord s
    → read_header (header_bytes (header_of s) ++ rest) ≡ header_of s
unfolding read_header header_bytes
read_header-header_bytes s rest w = ground arith

-- An interleaved frame as RFC 2326, section 10.12 describes it: a dollar sign, the channel, the
-- size in two bytes and so many bytes.
pub record Frame : Type 0 where
  pub channel : ℕ
  pub bytes : List ℕ

pub read_frame : List ℕ → Option (Frame × List ℕ)
read_frame [] = none
read_frame (a ∷ []) = none
read_frame (a ∷ b ∷ []) = none
read_frame (a ∷ b ∷ c ∷ []) = none
read_frame (a ∷ b ∷ c ∷ d ∷ rest) =
    let size = c * 256 + d in
    if a == b'$'
    then if leb size (length rest)
      then some (record { channel = b; bytes = take size rest }, drop size rest)
      else none
    else none

read_frame-frame :
    (channel size : ℕ) (bytes : List ℕ)
    → length bytes ≡ size
    → read_frame (b'$' ∷ channel ∷ (size / 256) ∷ (size % 256) ∷ bytes)
      ≡ some (record { channel = channel; bytes = bytes }, [])
unfolding read_frame
read_frame-frame channel size bytes e =
    let s : size / 256 * 256 + size % 256 ≡ length bytes = omega arith in
    rw (
      s,
      le→leb (length bytes) (length bytes) (omega arith),
      take_all (length bytes) bytes (omega arith),
      drop_all (length bytes) bytes (omega arith),
    )

length-packet_bytes : (p : RtpPacket) → length (packet_bytes p) ≡ rtp_header_size + length p.payload
unfolding packet_bytes header_bytes
length-packet_bytes p = omega arith

-- What an instance over TCP with an 8-bit channel writes for a packet that fits its block reads
-- back as one interleaved frame: the channel's, with the packet's bytes in it and nothing behind
-- it.
pub read_frame-send :
    (p : RtpPacket) (r : RtpInstance)
    → r.rtp_type ≡ rtp_over_tcp
    → r.rtp_channel < u8_mod
    → length p.payload ≡ payload_size
    → p.size ≤ rtp_header_size + payload_size
    → (bytes : List ℕ) × (send p r ≡ write r.sock_fd bytes)
      × (read_frame bytes
          ≡ some (record { channel = r.rtp_channel; bytes = take p.size (packet_bytes p) }, []))
unfolding send
read_frame-send p r t c l k =
    let body = take p.size (packet_bytes p) in
    let sized : length body ≡ p.size =
      omega (arith, length-take p.size (packet_bytes p), length-packet_bytes p) in
    let small : p.size < 2048 = omega arith in
    let ch : r.rtp_channel % u8_mod ≡ r.rtp_channel = omega arith in
    let hi : p.size / 256 % 256 ≡ p.size / 256 = omega arith in
    (
      b'$' ∷ r.rtp_channel ∷ (p.size / 256) ∷ (p.size % 256) ∷ body,
      rw (t, send)
          (let four : p.size + 4 ≡ suc (suc (suc (suc p.size))) = omega arith in
            rw (four, ch, high_byte p.size small, low_byte p.size small)),
      read_frame-frame r.rtp_channel p.size body sized,
    )
