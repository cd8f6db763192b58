-- ===== src/Rtp/Aac/Description/Config.antt =====
-- The configuration of the decoder in the description.
use my_rtsp_server.Prelude.{ℕ, ◌+◌, ◌*◌, ◌^◌, ◌<◌, ◌≡◌, refl, Bool, true, if◌then◌else◌, arith}
use my_rtsp_server.Prelude.Bits.{agree, agree_lem}
use my_rtsp_server.Prelude.Text.{hex, decimal, bytes_eq, bytes_eq-eq}
use my_rtsp_server.Rtp.Aac.Description.{atoi_from, four_digits, config_str}

-- The AudioSpecificConfig of ISO 14496-3 for AAC LC: five bits of object type, four of the
-- frequency's index, four of the channels, three of zero.
abbrev pub specific_config : ℕ → ℕ → ℕ
specific_config index channels = 2 * 2 ^ 11 + index * 2 ^ 7 + channels * 2 ^ 3

is_right : ℕ → Bool
is_right index =
    bytes_eq (four_digits (atoi_from 0 (config_str index 2))) (hex 4 (specific_config index 2))

right_table : agree (λ i. if is_right i then 1 else 0) (λ i. 1) 16 ≡ true
unfolding agree is_right bytes_eq four_digits decimal atoi_from config_str hex
right_table = refl

-- Of two channels, the four digits that are printed are the configuration in hexadecimal, for
-- every index of a sample rate.
pub config_str_lem :
    (index : ℕ)
    → index < 16
    → four_digits (atoi_from 0 (config_str index 2)) ≡ hex 4 (specific_config index 2)
unfolding is_right
config_str_lem index h =
    let one = agree_lem (λ i. if is_right i then 1 else 0) (λ i. 1) 16 right_table h in
    bytes_eq-eq _ _ (ground (arith, one))
