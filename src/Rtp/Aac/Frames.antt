-- ===== src/Rtp/Aac/Frames.antt =====
-- What `AACRtpSink::HandleFrame` makes of a frame.
use Prim.Native.Nat.{bit_and}
use my_rtsp_server.Prelude.{
  ℕ, ◌+◌, ◌-◌, ◌*◌, ◌/◌, ◌%◌, ◌^◌, ◌≤◌, ◌<◌, ◌≡◌, refl, true, none, List, [], ◌∷◌, arith, le→leb,
  gt→leb, Returns, length, take, drop, slice, overwrite, set, get_or, u32_mod, length-overwrite,
  drop-append_left, slice-overwrite, length-slice,
}
use my_rtsp_server.Prelude.Bits.{agree, agree_lem}
use my_rtsp_server.Rtp.{
  AvFrame, load, header_of, store, send_rtp_packet, datagram, next_seq, payload_size,
  rtp_header_size,
}
use my_rtsp_server.Rtp.H264.Sent.{sent_since}
use my_rtsp_server.Rtp.Aac.{AacRtpSink, adts_header_size, time_step, handle_frame}

size_high_table : agree (λ x. bit_and x 0x1FE0 / 2 ^ 5 % 256) (λ x. x / 32) 2048 ≡ true
unfolding agree
size_high_table = refl

size_low_table : agree (λ x. bit_and x 0x1F * 2 ^ 3 % 256) (λ x. x % 32 * 8) 2048 ≡ true
unfolding agree
size_low_table = refl

size_high : (x : ℕ) → x < 2048 → bit_and x 0x1FE0 / 2 ^ 5 % 256 ≡ x / 32
size_high x = agree_lem _ _ 2048 size_high_table

size_low : (x : ℕ) → x < 2048 → bit_and x 0x1F * 2 ^ 3 % 256 ≡ x % 32 * 8
size_low x = agree_lem _ _ 2048 size_low_table

-- What a receiver reads by RFC 3640 with 13 bits of size and 3 of index: the bits of AU headers,
-- the size of the first unit, its index, and the unit.
pub record AccessUnit : Type 0 where
  pub headers_length : ℕ
  pub size : ℕ
  pub index : ℕ
  pub unit : List ℕ

pub read_access_unit : List ℕ → AccessUnit
read_access_unit l =
    let au = get_or l 2 0 * 256 + get_or l 3 0 in
    record {
      headers_length = get_or l 0 0 * 256 + get_or l 1 0;
      size = au / 8;
      index = au % 8;
      unit = drop 4 l;
    }

au_bytes :
    (n : ℕ) (payload bytes : List ℕ)
    → overwrite
        (set
          (set (set (set payload 0 0x00) 1 0x10) 2 (bit_and n 0x1FE0 / 2 ^ 5 % 256))
          3
          (bit_and n 0x1F * 2 ^ 3 % 256))
        4
        bytes
      ≡ overwrite payload 0
          (0x00 ∷ 0x10 ∷ (bit_and n 0x1FE0 / 2 ^ 5 % 256) ∷ (bit_and n 0x1F * 2 ^ 3 % 256) ∷ bytes)
au_bytes n [] bytes = refl
au_bytes n (a ∷ []) bytes = refl
au_bytes n (a ∷ b ∷ []) bytes = refl
au_bytes n (a ∷ b ∷ c ∷ []) bytes = refl
au_bytes n (a ∷ b ∷ c ∷ d ∷ r) bytes = refl

read_access_unit_bytes :
    (n : ℕ) (unit : List ℕ)
    → n < 2048
    → read_access_unit
        (0x00 ∷ 0x10 ∷ (bit_and n 0x1FE0 / 2 ^ 5 % 256) ∷ (bit_and n 0x1F * 2 ^ 3 % 256) ∷ unit)
      ≡ record { headers_length = 16; size = n; index = 0; unit = unit }
unfolding read_access_unit
read_access_unit_bytes n unit h = ground (arith, size_high n h, size_low n h)

pub record IsReady (a : AacRtpSink) : Type 0 where
  pub connected : a.sink.has_callback ≡ true
  pub sized : length a.packet.payload ≡ payload_size

-- A frame of 7 to 1499 bytes, within its block, is sent by a ready sink as one packet under the
-- sink's header. Its body reads back as one access unit, whose size is the frame's without the
-- ADTS header and whose bytes are the frame's behind that header. The sequence number and the time
-- stamp go on, and the sink is ready again.
pub handle_frame_sends :
    (f : AvFrame) (a : AacRtpSink)
    → IsReady a
    → adts_header_size ≤ f.frame_size
    → f.frame_size ≤ 1499
    → f.start + f.frame_size ≤ length f.block
    → Returns
        (λ a'.
          (b : List ℕ) × (sent_since a.sink a'.sink
            ≡ record { header = header_of a.sink; body = b } ∷ [])
          × (read_access_unit b ≡ record {
            headers_length = 16;
            size = f.frame_size - adts_header_size;
            index = 0;
            unit = slice (f.start + adts_header_size) (f.frame_size - adts_header_size) f.block;
          })
          × (a'.sink.seq ≡ next_seq a.sink.seq)
          × (a'.sink.time_stamp ≡ (a.sink.time_stamp + time_step a) % u32_mod)
          × IsReady a')
        (handle_frame f a)
unfolding handle_frame load store send_rtp_packet datagram
handle_frame_sends f a r k l b =
    let n = f.frame_size - adts_header_size in
    let bytes = slice (f.start + adts_header_size) n f.block in
    let room : f.start + adts_header_size + n ≤ length f.block = omega arith in
    let sized : length bytes ≡ n = length-slice (f.start + adts_header_size) n f.block room in
    let head =
      0x00 ∷ 0x10 ∷ (bit_and n 0x1FE0 / 2 ^ 5 % 256) ∷ (bit_and n 0x1F * 2 ^ 3 % 256) ∷ bytes in
    let block = overwrite a.packet.payload 0 head in
    let count : n + 4 + rtp_header_size - rtp_header_size ≡ n + 4 = omega arith in
    let kept : length block ≡ payload_size =
      omega (arith, length-overwrite a.packet.payload 0 head, r.sized) in
    let body : take (n + 4) block ≡ head =
      slice-overwrite a.packet.payload 0 0 head refl (omega arith) (omega (arith, r.sized)) in
    rw (le→leb adts_header_size f.frame_size k) (
      rw (le→leb (f.start + adts_header_size + n) (length f.block) room) (
        rw (le→leb (4 + length bytes) payload_size (omega arith)) (
          rw (au_bytes n a.packet.payload bytes) (
            rw (r.connected, count, body)
              (
                head,
                drop-append_left a.sink.sent
                    (record { header = header_of a.sink; body = head } ∷ []),
                read_access_unit_bytes n bytes (omega arith),
                refl,
                refl,
                record { connected = refl; sized = kept },
              )))))

-- A frame of more than 1499 bytes, within its block, does not fit: the copy would leave the
-- packet's block.
pub handle_frame_too_long :
    (f : AvFrame) (a : AacRtpSink)
    → 1499 < f.frame_size
    → f.start + f.frame_size ≤ length f.block
    → handle_frame f a ≡ none
unfolding handle_frame load store
handle_frame_too_long f a h b =
    let n = f.frame_size - adts_header_size in
    let bytes = slice (f.start + adts_header_size) n f.block in
    let room : f.start + adts_header_size + n ≤ length f.block = omega arith in
    let sized : length bytes ≡ n = length-slice (f.start + adts_header_size) n f.block room in
    rw (le→leb adts_header_size f.frame_size (omega arith)) (
      rw (le→leb (f.start + adts_header_size + n) (length f.block) room)
        (rw (gt→leb payload_size (4 + length bytes) (omega arith))))
