-- ===== src/Rtp/Tests.antt =====
-- The theorems on the sinks and the instances at a frame in one packet, in several, and in too many
-- bytes for AAC.
use my_rtsp_server.Prelude.{
  ℕ, ◌+◌, ◌-◌, ◌/◌, ◌%◌, ◌≤◌, ◌≡◌, refl, true, none, some, List, [], ◌∷◌, ◌++◌, arith, map, Returns,
  length, take, slice, replicate, length-replicate, get_elem?, ltb, if◌then◌else◌, u16_mod, u32_mod,
}
use my_rtsp_server.Rtp.{
  AvFrame, RtpPacket, RtpSink, Datagram, header_of, next_seq, payload_size, rtp_max_pkt_size,
}
use my_rtsp_server.Rtp.H264
use my_rtsp_server.Rtp.H264.{H264RtpSink, fu_indicator}
use my_rtsp_server.Rtp.H264.Fragments
use my_rtsp_server.Rtp.H264.Fragments.{is_parameter_set, next_stamp}
use my_rtsp_server.Rtp.H264.Sent.{sent_since, reassembled}
use my_rtsp_server.Rtp.H264.Frames.{handle_frame_long}
use my_rtsp_server.Rtp.H264.Numbers.{header_at, handle_frame_numbers, handle_frame_last_type}
use my_rtsp_server.Rtp.Aac
use my_rtsp_server.Rtp.Aac.{AacRtpSink, adts_header_size, time_step}
use my_rtsp_server.Rtp.Aac.Frames
use my_rtsp_server.Rtp.Aac.Frames.{read_access_unit, handle_frame_sends, handle_frame_too_long}
use my_rtsp_server.Rtp.Instance.{RtpInstance, rtp_over_tcp, header_bytes, packet_bytes, write, send}
use my_rtsp_server.Rtp.Instance.Wire.{
  IsWord, read_header, read_frame, read_header-header_bytes, read_frame-send,
}

abbrev pub empty_packet : RtpPacket
empty_packet = record {
  header = record {
    csrc_len = 0;
    extension = 0;
    padding = 0;
    version = 2;
    payload_type = 96;
    marker = 0;
    seq = 0;
    timestamp = 0;
    ssrc = 0;
  };
  payload = replicate payload_size 0;
  size = 0;
}

abbrev pub last_number : RtpSink
last_number = record {
  csrc_len = 0;
  extension = 0;
  padding = 0;
  version = 2;
  payload_type = 96;
  marker = 0;
  seq = 65535;
  time_stamp = 7;
  ssrc = 5;
  has_callback = true;
  sent = [];
}

abbrev pub video : H264RtpSink
video = record { sink = last_number; packet = empty_packet; clock_rate = 90000; fps = 25 }

pub video-IsReady : Fragments.IsReady video
video-IsReady = record { connected = refl; sized = length-replicate {A = ℕ} payload_size 0 }

-- A NAL unit of type 5 behind a start code, in a larger block.
abbrev unit : ℕ → AvFrame
unit size = record { block = 0 ∷ 0 ∷ 1 ∷ 0x65 ∷ replicate 3000 9; start = 3; frame_size = size }

unit_fits : (size : ℕ) → size ≤ 2999 → 3 + 1 + size ≤ length (unit size).block
unit_fits size h = omega (arith, length-replicate {A = ℕ} 3000 9)

handle_frame_long_example :
    Returns
      (λ h'.
        (reassembled (sent_since last_number h'.sink) ≡ slice 4 2900 (unit 2900).block)
        × (length (sent_since last_number h'.sink)
            ≡ (2900 + (rtp_max_pkt_size - 1)) / rtp_max_pkt_size)
        × (h'.sink.time_stamp ≡ next_stamp video)
        × Fragments.IsReady h')
      (H264.handle_frame (unit 2900) video)
handle_frame_long_example =
    handle_frame_long (unit 2900) video 0x65 video-IsReady refl (omega arith)
      (unit_fits 2900 (omega arith))

handle_frame_numbers_example :
    Returns
      (λ h'.
        let ds = sent_since last_number h'.sink in
        (get_elem? (map (λ (d : Datagram). d.header) ds) 1
          ≡ (if ltb 1 (length ds) then some (header_at last_number 1) else none))
        × (h'.sink.seq ≡ (65535 + length ds) % u16_mod))
      (H264.handle_frame (unit 2900) video)
handle_frame_numbers_example =
    handle_frame_numbers (unit 2900) video 0x65 1 video-IsReady
      (refl, unit_fits 2900 (omega arith), omega arith)

handle_frame_last_type_example :
    Returns
      (λ h'.
        (d : Datagram) × (get_elem? (sent_since last_number h'.sink) (2900 / rtp_max_pkt_size)
          ≡ some d)
        × (get_elem? d.body 0 ≡ some (fu_indicator 0x65))
        × (get_elem? d.body 1 ≡ some 0x40))
      (H264.handle_frame (unit 2900) video)
handle_frame_last_type_example =
    handle_frame_last_type (unit 2900) video 0x65 video-IsReady
      (refl, unit_fits 2900 (omega arith), omega arith) (omega arith) (omega arith)

abbrev audio : AacRtpSink
audio = record {
  sink = last_number;
  packet = empty_packet;
  sample_rate = 44100;
  channels = 2;
  fps = 43;
}

audio-IsReady : Frames.IsReady audio
audio-IsReady = record { connected = refl; sized = length-replicate {A = ℕ} payload_size 0 }

handle_frame_sends_example :
    Returns
      (λ a'.
        (b : List ℕ) × (sent_since last_number a'.sink
          ≡ record { header = header_of last_number; body = b } ∷ [])
        × (read_access_unit b ≡ record {
          headers_length = 16;
          size = 300 - adts_header_size;
          index = 0;
          unit = slice (3 + adts_header_size) (300 - adts_header_size) (unit 300).block;
        })
        × (a'.sink.seq ≡ next_seq 65535)
        × (a'.sink.time_stamp ≡ (7 + time_step audio) % u32_mod)
        × Frames.IsReady a')
      (Aac.handle_frame (unit 300) audio)
handle_frame_sends_example =
    handle_frame_sends (unit 300) audio audio-IsReady (omega arith) (omega arith)
      (omega (arith, unit_fits 300 (omega arith)))

last_number-IsWord : IsWord last_number
last_number-IsWord = record {
  seq_small = omega arith;
  stamp_small = omega arith;
  ssrc_small = omega arith;
}

read_header-header_bytes_example :
    read_header (header_bytes (header_of last_number) ++ (1 ∷ [])) ≡ header_of last_number
read_header-header_bytes_example = read_header-header_bytes last_number (1 ∷ []) last_number-IsWord

abbrev client : RtpInstance
client = record {
  rtp_type = rtp_over_tcp;
  sock_fd = 8;
  local_port = 0;
  dest_addr = record { ip = []; port = 0 };
  is_alive = true;
  session_id = 1;
  rtp_channel = 2;
}

abbrev full_packet : RtpPacket
full_packet = record empty_packet { size = 1000 }

read_frame-send_example :
    (bytes : List ℕ) × (send full_packet client ≡ write 8 bytes)
    × (read_frame bytes
        ≡ some (record { channel = 2; bytes = take 1000 (packet_bytes full_packet) }, []))
read_frame-send_example =
    read_frame-send full_packet client refl (omega arith) (length-replicate {A = ℕ} payload_size 0)
      (omega arith)
