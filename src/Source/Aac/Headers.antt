-- ===== src/Source/Aac/Headers.antt =====
-- The bytes of an ADTS header and what the parser makes of them.
use Prim.Native.Nat.{bit_and, bit_or}
use my_rtsp_server.Prelude.{
  ℕ, ◌+◌, ◌*◌, ◌/◌, ◌%◌, ◌^◌, ◌<◌, ◌≡◌, refl, sym, ap, ap₂, ◌∙◌, true, some, List, [], ◌∷◌, arith,
}
use my_rtsp_server.Prelude.Bits.{agree, agree_lem}
use my_rtsp_server.Source.Aac.{AdtsHeader, fields, frame_length, parse_adts_header}

-- The fields have their widths.
pub record Fits (h : AdtsHeader) : Type 0 where
  pub no_syncword : h.syncword ≡ 0
  pub id : h.id < 2
  pub layer : h.layer < 4
  pub protection_absent : h.protection_absent < 2
  pub profile : h.profile < 4
  pub sampling_freq_index : h.sampling_freq_index < 16
  pub private_bit : h.private_bit < 2
  pub channel_cfg : h.channel_cfg < 8
  pub original_copy : h.original_copy < 2
  pub home : h.home < 2
  pub copyright_identification_bit : h.copyright_identification_bit < 2
  pub copyright_identification_start : h.copyright_identification_start < 2
  pub aac_frame_length : h.aac_frame_length < 2 ^ 13
  pub adts_buffer_fullness : h.adts_buffer_fullness < 2 ^ 11
  pub number_of_raw_data_block_in_frame : h.number_of_raw_data_block_in_frame < 4

abbrev pub byte1 : AdtsHeader → ℕ
byte1 h = 0xF0 + h.id * 8 + h.layer * 2 + h.protection_absent

abbrev pub byte2 : AdtsHeader → ℕ
byte2 h = h.profile * 64 + h.sampling_freq_index * 4 + h.private_bit * 2 + h.channel_cfg / 4

abbrev pub byte3 : AdtsHeader → ℕ
byte3 h =
    h.channel_cfg % 4 * 64
    + h.original_copy * 32
    + h.home * 16
    + h.copyright_identification_bit * 8
    + h.copyright_identification_start * 4
    + h.aac_frame_length / 2048

abbrev pub byte4 : AdtsHeader → ℕ
byte4 h = h.aac_frame_length / 8 % 256

abbrev pub byte5 : AdtsHeader → ℕ
byte5 h = h.aac_frame_length % 8 * 32 + h.adts_buffer_fullness / 64

abbrev pub byte6 : AdtsHeader → ℕ
byte6 h = h.adts_buffer_fullness % 64 * 4 + h.number_of_raw_data_block_in_frame

-- The header as a file has it: the syncword, then the fields one behind the other, highest bit
-- first.
abbrev pub adts_bytes : AdtsHeader → List ℕ
adts_bytes h = 0xFF ∷ byte1 h ∷ byte2 h ∷ byte3 h ∷ byte4 h ∷ byte5 h ∷ byte6 h ∷ []

-- What the parser reads out of the bytes of a header: all, but the copyright start bit.
abbrev pub as_parsed : AdtsHeader → AdtsHeader
as_parsed h = record h { copyright_identification_start = h.aac_frame_length / 2048 % 2 }

-- A mask that takes `w` values from the digit of worth `d` on.
field :
    (mask d w : ℕ) (x : ℕ)
    → agree (λ b. bit_and b mask / d) (λ b. b / d % w) 256 ≡ true
    → x < 256
    → bit_and x mask / d ≡ x / d % w
field mask d w x table h = agree_lem (λ b. bit_and b mask / d) (λ b. b / d % w) 256 table h

byte1_fields :
    (x : ℕ)
    → x < 256
    → (bit_and x 0xF0 ≡ x / 16 * 16)
      × (bit_and x 0x08 / 8 ≡ x / 8 % 2)
      × (bit_and x 0x06 / 2 ≡ x / 2 % 4)
      × (bit_and x 0x01 ≡ x % 2)
unfolding agree
byte1_fields x h = (
  agree_lem (λ b. bit_and b 0xF0) (λ b. b / 16 * 16) 256 refl h,
  field 0x08 8 2 x refl h,
  field 0x06 2 4 x refl h,
  agree_lem (λ b. bit_and b 0x01) (λ b. b % 2) 256 refl h,
)

byte2_fields :
    (x : ℕ)
    → x < 256
    → (bit_and x 0xC0 / 64 ≡ x / 64 % 4)
      × (bit_and x 0x3C / 4 ≡ x / 4 % 16)
      × (bit_and x 0x02 / 2 ≡ x / 2 % 2)
unfolding agree
byte2_fields x h = (field 0xC0 64 4 x refl h, field 0x3C 4 16 x refl h, field 0x02 2 2 x refl h)

byte3_fields :
    (x : ℕ)
    → x < 256
    → (bit_and x 0x20 / 32 ≡ x / 32 % 2)
      × (bit_and x 0x10 / 16 ≡ x / 16 % 2)
      × (bit_and x 0x08 / 8 ≡ x / 8 % 2)
      × (bit_and x 0x01 ≡ x % 2)
unfolding agree
byte3_fields x h = (
  field 0x20 32 2 x refl h,
  field 0x10 16 2 x refl h,
  field 0x08 8 2 x refl h,
  agree_lem (λ b. bit_and b 0x01) (λ b. b % 2) 256 refl h,
)

byte6_fields : (x : ℕ) → x < 256 → bit_and x 0x03 ≡ x % 4
unfolding agree
byte6_fields x h = agree_lem (λ b. bit_and b 0x03) (λ b. b % 4) 256 refl h

-- Numbers of two or three parts, put together again.
frame_length_lem :
    (b3 b4 b5 l : ℕ)
    → b3 < 256
    → b4 < 256
    → b5 < 256
    → l < 2 ^ 13
    → b3 % 4 ≡ l / 2048
    → b4 ≡ l / 8 % 256
    → b5 / 32 ≡ l % 8
    → frame_length b3 b4 b5 ≡ l
unfolding agree
frame_length_lem b3 b4 b5 l h3 h4 h5 h e3 e4 e5 =
    ap₂ bit_or
      (ap₂ bit_or
        (ap (λ b. b * 2 ^ 11) (agree_lem (λ b. bit_and b 0x03) (λ b. b % 4) 256 refl h3 ∙ e3))
        (ap (λ b. b * 2 ^ 3) (agree_lem (λ b. bit_and b 0xFF) (λ b. b) 256 refl h4 ∙ e4)))
      (agree_lem (λ b. bit_and b 0xE0 / 2 ^ 5) (λ b. b / 32) 256 refl h5 ∙ e5)
    ∙ agree_lem (λ l. bit_or (bit_or (l / 2048 * 2 ^ 11) (l / 8 % 256 * 2 ^ 3)) (l % 8)) (λ l. l)
        8192 refl h

channel_cfg_lem :
    (b2 b3 c : ℕ)
    → b2 < 256
    → b3 < 256
    → c < 8
    → b2 % 2 ≡ c / 4
    → b3 / 64 ≡ c % 4
    → bit_or (bit_and b2 0x01 * 2 ^ 2) (bit_and b3 0xC0 / 2 ^ 6) ≡ c
unfolding agree
channel_cfg_lem b2 b3 c h2 h3 h e2 e3 =
    ap₂ bit_or (ap (λ b. b * 2 ^ 2) (agree_lem (λ b. bit_and b 0x01) (λ b. b % 2) 256 refl h2 ∙ e2))
      (agree_lem (λ b. bit_and b 0xC0 / 2 ^ 6) (λ b. b / 64) 256 refl h3 ∙ e3)
    ∙ agree_lem (λ c. bit_or (c / 4 * 2 ^ 2) (c % 4)) (λ c. c) 8 refl h

fullness_lem :
    (b5 b6 f : ℕ)
    → b5 < 256
    → b6 < 256
    → f < 2 ^ 11
    → b5 % 32 ≡ f / 64
    → b6 / 4 ≡ f % 64
    → bit_or (bit_and b5 0x1F * 2 ^ 6) (bit_and b6 0xFC / 2 ^ 2) ≡ f
unfolding agree
fullness_lem b5 b6 f h5 h6 h e5 e6 =
    ap₂ bit_or
      (ap (λ b. b * 2 ^ 6) (agree_lem (λ b. bit_and b 0x1F) (λ b. b % 32) 256 refl h5 ∙ e5))
      (agree_lem (λ b. bit_and b 0xFC / 2 ^ 2) (λ b. b / 4) 256 refl h6 ∙ e6)
    ∙ agree_lem (λ f. bit_or (f / 64 * 2 ^ 6) (f % 64)) (λ f. f) 2048 refl h

byte1_below : (h : AdtsHeader) → Fits h → byte1 h < 256
byte1_below h v = omega (arith, v.id, v.layer, v.protection_absent)

byte2_below : (h : AdtsHeader) → Fits h → byte2 h < 256
byte2_below h v = omega (arith, v.profile, v.sampling_freq_index, v.private_bit, v.channel_cfg)

byte3_below : (h : AdtsHeader) → Fits h → byte3 h < 256
byte3_below h v = omega (
  arith, v.original_copy, v.home, v.copyright_identification_bit, v.copyright_identification_start,
  v.aac_frame_length,
)

byte5_below : (h : AdtsHeader) → Fits h → byte5 h < 256
byte5_below h v = omega (arith, v.aac_frame_length, v.adts_buffer_fullness)

byte6_below : (h : AdtsHeader) → Fits h → byte6 h < 256
byte6_below h v = omega (arith, v.number_of_raw_data_block_in_frame)

byte1_lem :
    (h : AdtsHeader)
    → Fits h
    → (bit_and (byte1 h) 0xF0 ≡ 0xF0)
      × (bit_and (byte1 h) 0x08 / 8 ≡ h.id)
      × (bit_and (byte1 h) 0x06 / 2 ≡ h.layer)
      × (bit_and (byte1 h) 0x01 ≡ h.protection_absent)
byte1_lem h v =
    let (sync, id, layer, absent) = byte1_fields (byte1 h) (byte1_below h v) in
    let i = v.id in
    let l = v.layer in
    let p = v.protection_absent in
    (sync ∙ omega arith, id ∙ omega arith, layer ∙ omega arith, absent ∙ omega arith)

byte2_lem :
    (h : AdtsHeader)
    → Fits h
    → (bit_and (byte2 h) 0xC0 / 64 ≡ h.profile)
      × (bit_and (byte2 h) 0x3C / 4 ≡ h.sampling_freq_index)
      × (bit_and (byte2 h) 0x02 / 2 ≡ h.private_bit)
byte2_lem h v =
    let (profile, index, private) = byte2_fields (byte2 h) (byte2_below h v) in
    let p = v.profile in
    let i = v.sampling_freq_index in
    let b = v.private_bit in
    let c = v.channel_cfg in (profile ∙ omega arith, index ∙ omega arith, private ∙ omega arith)

byte3_lem :
    (h : AdtsHeader)
    → Fits h
    → (bit_and (byte3 h) 0x20 / 32 ≡ h.original_copy)
      × (bit_and (byte3 h) 0x10 / 16 ≡ h.home)
      × (bit_and (byte3 h) 0x08 / 8 ≡ h.copyright_identification_bit)
      × (bit_and (byte3 h) 0x01 ≡ h.aac_frame_length / 2048 % 2)
byte3_lem h v =
    let (copy, home, bit, start) = byte3_fields (byte3 h) (byte3_below h v) in
    let o = v.original_copy in
    let m = v.home in
    let b = v.copyright_identification_bit in
    let s = v.copyright_identification_start in
    let l = v.aac_frame_length in
    (copy ∙ omega arith, home ∙ omega arith, bit ∙ omega arith, start ∙ omega arith)

fields-byte :
    (h : AdtsHeader)
    → Fits h
    → fields (byte1 h) (byte2 h) (byte3 h) (byte4 h) (byte5 h) (byte6 h) ≡ as_parsed h
fields-byte h v =
    let (_, id, layer, absent) = byte1_lem h v in
    let (profile, index, private) = byte2_lem h v in
    let (copy, home, bit, start) = byte3_lem h v in
    let below2 = byte2_below h v in
    let below3 = byte3_below h v in
    let below5 = byte5_below h v in
    let below6 = byte6_below h v in
    let o = v.original_copy in
    let m = v.home in
    let b = v.copyright_identification_bit in
    let s = v.copyright_identification_start in
    let l = v.aac_frame_length in
    let c = v.channel_cfg in
    let f = v.adts_buffer_fullness in
    let n = v.number_of_raw_data_block_in_frame in
    let channels =
      channel_cfg_lem (byte2 h) (byte3 h) h.channel_cfg below2 below3 c
        (omega (arith, v.private_bit)) (omega arith) in
    let frame =
      frame_length_lem (byte3 h) (byte4 h) (byte5 h) h.aac_frame_length below3 (omega arith) below5
        l (omega arith) refl (omega arith) in
    let fullness =
      fullness_lem (byte5 h) (byte6 h) h.adts_buffer_fullness below5 below6 f (omega arith)
        (omega arith) in
    let blocks =
      byte6_fields (byte6 h) below6
      ∙ (let e : byte6 h % 4 ≡ h.number_of_raw_data_block_in_frame = omega arith in e) in
    λ i. record {
      syncword = sym v.no_syncword i;
      id = id i;
      layer = layer i;
      protection_absent = absent i;
      profile = profile i;
      sampling_freq_index = index i;
      private_bit = private i;
      channel_cfg = channels i;
      original_copy = copy i;
      home = home i;
      copyright_identification_bit = bit i;
      copyright_identification_start = start i;
      aac_frame_length = frame i;
      adts_buffer_fullness = fullness i;
      number_of_raw_data_block_in_frame = blocks i;
    }

pub parse_adts_header-adts_bytes :
    (h : AdtsHeader) → Fits h → parse_adts_header (adts_bytes h) ≡ some (true, as_parsed h)
unfolding parse_adts_header
parse_adts_header-adts_bytes h v = simp ((byte1_lem h v).0, fields-byte h v) refl
