-- ===== src/Source/Aac/Tests.antt =====
-- The theorems on the AAC source at a file with one frame of two bytes; the offset is behind it.
use my_rtsp_server.Prelude.{
  ℕ, ◌≡◌, refl, ap, Option, some, List, [], ◌∷◌, ◌++◌, arith, take, drop, replicate,
}
use my_rtsp_server.Source.Aac.{AdtsHeader, cleared, AacFrame, get_frame_from_aac_file}
use my_rtsp_server.Source.Aac.Headers.{Fits, adts_bytes, as_parsed}
use my_rtsp_server.Source.Aac.Frames.{IsFile, get_frame_from_aac_file_lem}

-- MPEG-4 AAC LC, 44100 Hz, two channels, a frame of nine bytes.
abbrev header : AdtsHeader
header = record cleared {
  protection_absent = 1;
  profile = 1;
  sampling_freq_index = 4;
  channel_cfg = 2;
  copyright_identification_start = 1;
  aac_frame_length = 9;
  adts_buffer_fullness = 2047;
}

header-Fits : Fits header
header-Fits = record {
  no_syncword = refl;
  id = omega arith;
  layer = omega arith;
  protection_absent = omega arith;
  profile = omega arith;
  sampling_freq_index = omega arith;
  private_bit = omega arith;
  channel_cfg = omega arith;
  original_copy = omega arith;
  home = omega arith;
  copyright_identification_bit = omega arith;
  copyright_identification_start = omega arith;
  aac_frame_length = omega arith;
  adts_buffer_fullness = omega arith;
  number_of_raw_data_block_in_frame = omega arith;
}

-- A file is what is behind its offset.
abbrev whole : List ℕ
whole = adts_bytes header ++ 0x21 ∷ 0x10 ∷ []

abbrev read : ℕ → List ℕ → Option (List ℕ) × List ℕ
read n file = (some (take n file), drop n file)

abbrev rewind : List ℕ → List ℕ
rewind file = whole

abbrev Behind : List ℕ → List ℕ → Type 0
Behind file l = file ≡ l

read-IsFile : IsFile read rewind whole Behind
read-IsFile = record {
  reads = λ n file l e. ap (λ k. some (take n k)) e;
  moves = λ n file l e. ap (drop n) e;
  rewinds = λ file. refl;
}

abbrev block : List ℕ
block = replicate 16 0

get_frame_from_aac_file_lem_example :
    (frame : AacFrame (List ℕ)) × (get_frame_from_aac_file read rewind 16
        (replicate 7 0)
        cleared
        block
        []
      ≡ some frame)
    × (frame.size ≡ some 9)
    × (frame.header ≡ as_parsed header)
    × (take 9 frame.buffer ≡ whole)
    × Behind frame.file []
get_frame_from_aac_file_lem_example =
    get_frame_from_aac_file_lem read-IsFile 16 (replicate 7 0) block (0x21 ∷ 0x10 ∷ []) [] []
      cleared header [] header-Fits refl refl refl (omega arith) (omega arith) refl
