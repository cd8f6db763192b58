-- ===== src/Source.antt =====
-- include/net/media_source.h and src/net/h264media_source.cpp: the frames of a file, read on the
-- threads of the pool and handed to a sink. The memory behind a pointer is a list of bytes;
-- a result `none` is a read outside of it. `read` of the system is a parameter: what it returned.
pub mod StartCode
pub mod Queues
pub mod Cut
pub mod Owned
pub mod Aac
pub mod Delivery
pub mod Creation
pub mod Starving
mod Tests
use my_rtsp_server.Prelude.{
  ℕ, zero, suc, ◌+◌, ◌-◌, ◌^◌, Bool, true, false, not, ◌&&◌, Option, none, some, List, [], ◌∷◌,
  ◌++◌, ltb, ◌==◌, if◌then◌else◌, ◌>>=◌, sub32, length, drop, overwrite,
}
use my_rtsp_server.Rtp.{AvFrame}

-- The comparisons of the bytes from `buf[0]` on with a code, up to the first that differs.
unfoldable pub matches : List ℕ → List ℕ → Option Bool
matches [] buf = some true
matches (x ∷ xs) [] = none
matches (x ∷ xs) (b ∷ buf) = if b == x then matches xs buf else some false

abbrev pub start_code3 : List ℕ → Option Bool
start_code3 buf = matches (0 ∷ 0 ∷ 1 ∷ []) buf

abbrev pub start_code4 : List ℕ → Option Bool
start_code4 buf = matches (0 ∷ 0 ∷ 0 ∷ 1 ∷ []) buf

abbrev pub any_start_code : List ℕ → Option Bool
any_start_code buf = do three ← start_code3 buf; if three then some true else start_code4 buf

-- `n` rounds of the loop and the test behind it; `at` counts the steps of `buf`.
unfoldable pub scan_start_code : ℕ → ℕ → List ℕ → Option (Option ℕ)
scan_start_code zero at buf = do found ← start_code3 buf; some (if found then some at else none)
scan_start_code (suc n) at buf = do
  found ← any_start_code buf
  if found then some (some at) else scan_start_code n (suc at) (drop 1 buf)

-- `FindNextStartCode`: the distance from `buf`, or the null pointer.
unfoldable pub find_next_start_code : List ℕ → ℕ → Option (Option ℕ)
find_next_start_code buf len = if ltb len 3 then some none else scan_start_code (len - 3) 0 buf

-- The call of `lseek`.
pub data Seek : Type 0 where
  stay to_start : Seek
  back : ℕ → Seek

-- What GetFrameFromH264File returns: the size of the frame, -1 as `none`.
pub record FileFrame : Type 0 where
  pub size : Option ℕ
  pub seek : Seek

-- The part behind the `read`; `r_size` is the bit pattern of what it returned.
unfoldable pub cut_frame : ℕ → List ℕ → Option FileFrame
cut_frame r_size frame = do
  start ← any_start_code frame
  if not start then some (record { size = none; seek = stay }) else (do
    next ← find_next_start_code (drop 3 frame) (sub32 r_size 3)
    some (elim next [
      | none ↦ record { size = if ltb r_size (2 ^ 31) then some r_size else none; seek = to_start }
      | some d ↦ record { size = some (3 + d); seek = back (sub32 r_size (3 + d)) }
    ]))

-- `received` are the bytes that `read` stored at `frame`, -1 as `none`. The result has the memory.
unfoldable pub get_frame_from_h264_file : Option (List ℕ) → List ℕ → Option (FileFrame × List ℕ)
get_frame_from_h264_file none frame = do result ← cut_frame (2 ^ 32 - 1) frame; some (result, frame)
get_frame_from_h264_file (some bytes) frame = do
  let block = overwrite frame 0 bytes
  result ← cut_frame (length bytes) block
  some (result, block)

-- The queues hold pointers to the frames; `tasks` counts the tasks given to the pool.
pub record MediaSource : Type 0 where
  pub av_frames : ℕ → AvFrame
  pub input_que : List ℕ
  pub output_que : List ℕ
  pub tasks : ℕ

pub new : (ℕ → AvFrame) → MediaSource
new av_frames = record {
  av_frames = av_frames;
  input_que = 0 ∷ 1 ∷ 2 ∷ 3 ∷ [];
  output_que = [];
  tasks = 0;
}

unfoldable pub get_frame : MediaSource → Option ℕ × MediaSource
get_frame s = elim s.output_que [ [] ↦ (none, s) | p ∷ ps ↦ (some p, record s { output_que = ps }) ]

unfoldable pub put_frame : ℕ → MediaSource → MediaSource
put_frame p s = record s { input_que = s.input_que ++ (p ∷ []); tasks = suc s.tasks }

abbrev pub set_frame : ℕ → AvFrame → (ℕ → AvFrame) → ℕ → AvFrame
set_frame p f frames q = if p == q then f else frames q

-- What follows the call of GetFrameFromH264File, from its result; a size of -1 is stored as its bit
-- pattern. `p` is the front of the input queue, `ps` are the others.
unfoldable pub finish_frame :
    Option ℕ → Seek → List ℕ → ℕ → List ℕ → MediaSource → Option (Seek × MediaSource)
finish_frame none seek block p ps s = some (
  seek,
  record s {
    av_frames =
        set_frame p (record (s.av_frames p) { block = block; frame_size = 2 ^ 32 - 1 }) s.av_frames;
  },
)
finish_frame (some n) seek block p ps s = do
  three ← start_code3 block
  let skip = if three then 3 else 4
  some (
    seek,
    record s {
      av_frames =
          set_frame p (record { block = block; start = skip; frame_size = sub32 n skip })
            s.av_frames;
      input_que = ps;
      output_que = s.output_que ++ (p ∷ []);
    },
  )

-- `ReadFrame`, from the input queue.
unfoldable pub read_front : List ℕ → Option (List ℕ) → MediaSource → Option (Seek × MediaSource)
read_front [] received s = some (stay, s)
read_front (p ∷ ps) received s = do
  (result, block) ← get_frame_from_h264_file received (s.av_frames p).block
  finish_frame result.size result.seek block p ps s

abbrev pub read_frame : Option (List ℕ) → MediaSource → Option (Seek × MediaSource)
read_frame received s = read_front s.input_que received s
