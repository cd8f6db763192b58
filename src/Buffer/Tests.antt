-- ===== src/Buffer/Tests.antt =====
-- Runs of the buffer, and its theorems at a buffer that holds five bytes.
use my_rtsp_server.Prelude.{refl, [], ◌∷◌, ◌++◌, arith, Returns}
use my_rtsp_server.Prelude.Text.{codes}
use my_rtsp_server.Buffer.{Buffer, peek, append}
use my_rtsp_server.Buffer.Zeroing.{zeroing_realloc, zeroing_realloc-IsRealloc}
use my_rtsp_server.Buffer.Contents.{IsValid, Holds, append_lem}

abbrev five : Buffer
five = record {
  block = codes "..ab\r\n" ++ b'c' ∷ 0 ∷ [];
  buffer_size = 8;
  read_index = 2;
  write_index = 7;
}

five-IsValid : IsValid five
five-IsValid = record {
  sized = refl;
  ordered = omega arith;
  within = omega arith;
  small = omega arith;
}

append_lem_example :
    Returns
      (Holds (peek five ++ (b'd' ∷ b'e' ∷ [])))
      (append zeroing_realloc (b'd' ∷ b'e' ∷ []) five)
append_lem_example =
    append_lem zeroing_realloc zeroing_realloc-IsRealloc (b'd' ∷ b'e' ∷ []) five-IsValid
      (omega arith)
