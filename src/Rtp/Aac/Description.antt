-- ===== src/Rtp/Aac/Description.antt =====
-- src/net/aac_rtp_sink.cpp: the lines of a session's description that the sink gives.
pub mod Config
use Prim.Native.Nat.{bit_or}
use my_rtsp_server.Prelude.{
  ℕ, zero, suc, ◌+◌, ◌-◌, ◌*◌, ◌/◌, ◌%◌, ◌^◌, Bool, ◌&&◌, Option, none, some, List, [], ◌∷◌, ◌++◌,
  leb, ◌==◌, if◌then◌else◌, u8_mod, length,
}
use my_rtsp_server.Prelude.Text.{codes, decimal, crlf, hex}
use my_rtsp_server.Rtp.Aac.{AacRtpSink}

abbrev pub aac_sample_rate : List ℕ
aac_sample_rate =
    97000 ∷ 88200 ∷ 64000 ∷ 48000 ∷ 44100 ∷ 32000 ∷ 24000 ∷ 22050 ∷ 16000 ∷ 12000 ∷ 11025 ∷ 8000
    ∷ 7350 ∷ 0 ∷ 0 ∷ 0 ∷ []

unfoldable pub get_media_description : ℕ → AacRtpSink → List ℕ
get_media_description port a =
    codes "m=audio " ++ decimal port ++ codes " RTP/AVP " ++ decimal a.sink.payload_type

-- The loop's index behind it: the number of the entries where the rate is not among them.
unfoldable pub rate_index : ℕ → List ℕ → ℕ
rate_index rate [] = 0
rate_index rate (r ∷ rs) = let rest = rate_index rate rs in if r == rate then 0 else suc rest

-- The number that `atoi` reads: the digits up to the first other character.
unfoldable pub atoi_from : ℕ → List ℕ → ℕ
atoi_from n [] = n
atoi_from n (c ∷ cs) =
    let rest = atoi_from (n * 10 + (c - b'0')) cs in if leb b'0' c && leb c b'9' then rest else n

-- `%04u`
unfoldable pub four_digits : ℕ → List ℕ
four_digits n =
    let d = decimal n in
    if leb 4 (length d)
    then d
    else if length d == 3
    then b'0' ∷ d
    else if length d == 2
    then b'0' ∷ b'0' ∷ d
    else b'0' ∷ b'0' ∷ b'0' ∷ d

unfoldable pub config_str : ℕ → ℕ → List ℕ
config_str index channels =
    hex 2 (bit_or (2 * 2 ^ 3 % u8_mod) (index / 2))
    ++ hex 2 (bit_or (index * 2 ^ 7) (channels * 2 ^ 3) % u8_mod)

unfoldable pub get_attribute : AacRtpSink → List ℕ
get_attribute a =
    let index = rate_index a.sample_rate aac_sample_rate in
    if index == 16
    then []
    else (codes "a=rtpmap:97 mpeg4-generic/"
        ++ decimal a.sample_rate
        ++ codes "/"
        ++ decimal a.channels
        ++ crlf
        ++ codes "a=fmtp:"
        ++ decimal a.sink.payload_type
        ++ codes
            " profile-level-id=1;mode=AAC-hbr;sizelength=13;indexlength=3;indexdeltalength=3;config="
        ++ four_digits (atoi_from 0 (config_str index a.channels)))
