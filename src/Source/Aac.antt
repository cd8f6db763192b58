-- ===== src/Source/Aac.antt =====
-- include/net/aac_media_source.h and src/net/aac_media_source.cpp: the frames of an ADTS file.
-- `read` and `lseek` of the system are parameters; a result `none` is a write behind the frame's
-- block.
pub mod Headers
pub mod Frames
mod Tests
use Prim.Native.Nat.{bit_and, bit_or}
use my_rtsp_server.Prelude.{
  ℕ, zero, suc, ◌+◌, ◌-◌, ◌*◌, ◌/◌, ◌^◌, Bool, true, false, ◌&&◌, Option, none, some, List, [], ◌∷◌,
  ◌++◌, ltb, leb, ◌==◌, if◌then◌else◌, ◌>>=◌, sub32, length, get_elem?, overwrite,
}
use my_rtsp_server.Rtp.{AvFrame}
use my_rtsp_server.Source.{MediaSource, set_frame}

pub record AdtsHeader : Type 0 where
  pub syncword : ℕ
  pub id : ℕ
  pub layer : ℕ
  pub protection_absent : ℕ
  pub profile : ℕ
  pub sampling_freq_index : ℕ
  pub private_bit : ℕ
  pub channel_cfg : ℕ
  pub original_copy : ℕ
  pub home : ℕ
  pub copyright_identification_bit : ℕ
  pub copyright_identification_start : ℕ
  pub aac_frame_length : ℕ
  pub adts_buffer_fullness : ℕ
  pub number_of_raw_data_block_in_frame : ℕ

-- What `memset` leaves.
abbrev pub cleared : AdtsHeader
cleared = record {
  syncword = 0;
  id = 0;
  layer = 0;
  protection_absent = 0;
  profile = 0;
  sampling_freq_index = 0;
  private_bit = 0;
  channel_cfg = 0;
  original_copy = 0;
  home = 0;
  copyright_identification_bit = 0;
  copyright_identification_start = 0;
  aac_frame_length = 0;
  adts_buffer_fullness = 0;
  number_of_raw_data_block_in_frame = 0;
}

-- The three parts of the frame's length, from the bytes 3, 4 and 5.
abbrev pub frame_length : ℕ → ℕ → ℕ → ℕ
frame_length b3 b4 b5 =
    bit_or (bit_or (bit_and b3 0x03 * 2 ^ 11) (bit_and b4 0xFF * 2 ^ 3)) (bit_and b5 0xE0 / 2 ^ 5)

-- The assignments, from the bytes 1 to 6; `0x04 >> 2` comes before the `&`.
abbrev pub fields : ℕ → ℕ → ℕ → ℕ → ℕ → ℕ → AdtsHeader
fields b1 b2 b3 b4 b5 b6 = record {
  syncword = 0;
  id = bit_and b1 0x08 / 2 ^ 3;
  layer = bit_and b1 0x06 / 2 ^ 1;
  protection_absent = bit_and b1 0x01;
  profile = bit_and b2 0xC0 / 2 ^ 6;
  sampling_freq_index = bit_and b2 0x3C / 2 ^ 2;
  private_bit = bit_and b2 0x02 / 2 ^ 1;
  channel_cfg = bit_or (bit_and b2 0x01 * 2 ^ 2) (bit_and b3 0xC0 / 2 ^ 6);
  original_copy = bit_and b3 0x20 / 2 ^ 5;
  home = bit_and b3 0x10 / 2 ^ 4;
  copyright_identification_bit = bit_and b3 0x08 / 2 ^ 3;
  copyright_identification_start = bit_and b3 (0x04 / 2 ^ 2);
  aac_frame_length = frame_length b3 b4 b5;
  adts_buffer_fullness = bit_or (bit_and b5 0x1F * 2 ^ 6) (bit_and b6 0xFC / 2 ^ 2);
  number_of_raw_data_block_in_frame = bit_and b6 0x03;
}

-- What ParseAdtsHeader returns and what it leaves in `*res`.
unfoldable pub parse_adts_header : List ℕ → Option (Bool × AdtsHeader)
parse_adts_header bytes = do
  b0 ← get_elem? bytes 0
  b1 ← get_elem? bytes 1
  b2 ← get_elem? bytes 2
  b3 ← get_elem? bytes 3
  b4 ← get_elem? bytes 4
  b5 ← get_elem? bytes 5
  b6 ← get_elem? bytes 6
  some (
      if (b0 == 0xFF) && (bit_and b1 0xF0 == 0xF0)
      then (true, fields b1 b2 b3 b4 b5 b6)
      else (false, cleared))

abbrev pub frame_max_size : ℕ
frame_max_size = 1920 * 1200

-- What GetFrameFromAACFile leaves: its result, -1 as `none`, the header, the frame's block, the
-- file.
pub record AacFrame (File : Type 0) : Type 0 where
  pub size : Option ℕ
  pub header : AdtsHeader
  pub buffer : List ℕ
  pub file : File

-- What `ReadFrame` leaves.
pub record AacSource (File : Type 0) : Type 0 where
  pub source : MediaSource
  pub adts_header : AdtsHeader
  pub file : File

abbrev pub has_bytes : Option (List ℕ) → Bool
has_bytes none = false
has_bytes (some []) = false
has_bytes (some (b ∷ bs)) = true

module _ {File : Type 0} where
  -- What follows the `read` of the rest of a frame, from what it returned.
  unfoldable pub finish_frame :
      Option (List ℕ) → List ℕ → AdtsHeader → List ℕ → File → Option (AacFrame File)
  finish_frame none tmp_buf header buf file =
      some (record { size = none; header = header; buffer = overwrite buf 0 tmp_buf; file = file })
  finish_frame (some body) tmp_buf header buf file =
      if leb (7 + length body) (length buf)
      then some (record {
        size = some header.aac_frame_length;
        header = header;
        buffer = overwrite (overwrite buf 0 tmp_buf) 7 body;
        file = file;
      })
      else none

module _ {File : Type 0} (read : ℕ → File → Option (List ℕ) × File) (rewind : File → File) where
  -- The reads of the header: what the last one returned, and the file behind it.
  unfoldable pub read_header : File → Option (List ℕ) × File
  read_header file =
      let (received, file') = read 7 file in
      if has_bytes received then (received, file') else read 7 (rewind file')

  -- The part behind the header's tests.
  unfoldable pub read_body : List ℕ → AdtsHeader → List ℕ → File → Option (AacFrame File)
  read_body tmp_buf header buf file =
      let rest = read (sub32 header.aac_frame_length 7) file in
      finish_frame rest.0 tmp_buf header buf rest.1

  -- The part behind the reads of the header, from what the array of seven bytes then holds.
  unfoldable pub check_header : ℕ → List ℕ → List ℕ → File → Option (AacFrame File)
  check_header size tmp_buf buf file = do
    result ← parse_adts_header tmp_buf
    (if result.0 && leb result.1.aac_frame_length size
        then read_body tmp_buf result.1 buf file
        else some (record { size = none; header = result.1; buffer = buf; file = file }))

  -- From what the last of these reads returned.
  unfoldable pub after_header :
      Option (List ℕ) → ℕ → List ℕ → AdtsHeader → List ℕ → File → Option (AacFrame File)
  after_header none size tmp_buf header buf file =
      some (record { size = none; header = header; buffer = buf; file = file })
  after_header (some []) size tmp_buf header buf file =
      some (record { size = none; header = header; buffer = buf; file = file })
  after_header (some (b ∷ bs)) size tmp_buf header buf file =
      check_header size (overwrite tmp_buf 0 (b ∷ bs)) buf file

  -- `tmp_buf` is the array as it stood, `header` the source's.
  unfoldable pub get_frame_from_aac_file :
      ℕ → List ℕ → AdtsHeader → List ℕ → File → Option (AacFrame File)
  get_frame_from_aac_file size tmp_buf header buf file =
      let received = read_header file in after_header received.0 size tmp_buf header buf received.1

  -- A size of -1 is stored as its bit pattern.
  unfoldable pub read_frame : List ℕ → AacSource File → Option (AacSource File)
  read_frame tmp_buf s = elim s.source.input_que [
    | [] ↦ some s
    | p ∷ ps ↦ do
      let frames = s.source.av_frames
      frame ← get_frame_from_aac_file frame_max_size tmp_buf s.adts_header (frames p).block s.file
      some (record s {
        source = elim frame.size [
          | none ↦ record (s.source) {
            av_frames =
                set_frame p (record (frames p) { block = frame.buffer; frame_size = 2 ^ 32 - 1 })
                  frames;
          }
          | some n ↦ record (s.source) {
            av_frames =
                set_frame p (record { block = frame.buffer; start = 0; frame_size = n }) frames;
            input_que = ps;
            output_que = s.source.output_que ++ (p ∷ []);
          }
        ];
        adts_header = frame.header;
        file = frame.file;
      })
  ]
