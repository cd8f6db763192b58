-- ===== src/Source/Aac/Frames.antt =====
-- The frames that the source reads from a file.
use my_rtsp_server.Prelude.{
  ℕ, ◌+◌, ◌^◌, ◌<◌, ◌≤◌, ◌≡◌, refl, sym, ap, subst, ◌∙◌, true, Option, some, List, [], ◌∷◌, ◌++◌,
  arith, leb, le→leb, sub32, length, take, drop, overwrite, take-append_left, drop-append_left,
  take_all, slice-overwrite, length-overwrite,
}
use my_rtsp_server.Source.Aac.{
  AdtsHeader, AacFrame, read_header, read_body, get_frame_from_aac_file, finish_frame, check_header,
  after_header,
}
use my_rtsp_server.Source.Aac.Headers.{Fits, adts_bytes, as_parsed, parse_adts_header-adts_bytes}

-- What `read` and `lseek` do on a file with the bytes `whole`: a read takes as many bytes as there
-- are behind the offset, up to the number asked for, and the offset moves behind them; `Behind`
-- says which bytes are behind the offset.
pub record IsFile {File : Type 0} (read : ℕ → File → Option (List ℕ) × File) (rewind : File → File)
    (whole : List ℕ) (Behind : File → List ℕ → Type 0) : Type 0 where
  pub reads : (n : ℕ) (file : File) (l : List ℕ) → Behind file l → (read n file).0 ≡ some (take n l)
  pub moves : (n : ℕ) (file : File) (l : List ℕ) → Behind file l → Behind (read n file).1 (drop n l)
  pub rewinds : (file : File) → Behind (rewind file) whole

-- The bytes that come next: those behind the offset, or the file from its start.
abbrev pub upcoming : List ℕ → List ℕ → List ℕ
upcoming [] whole = whole
upcoming (b ∷ l) whole = b ∷ l

overwrite_all : (d src : List ℕ) → length d ≡ length src → overwrite d 0 src ≡ src
overwrite_all d src e =
    sym (take_all (length src) (overwrite d 0 src) (omega (arith, length-overwrite d 0 src)))
    ∙ slice-overwrite d 0 0 src {p = 0} {m = length src} refl (omega arith) (omega arith)

module _ {File : Type 0} {read : ℕ → File → Option (List ℕ) × File} {rewind : File → File}
    {whole : List ℕ} {Behind : File → List ℕ → Type 0}
    (is_file : IsFile read rewind whole Behind) where
  read_header_lem :
      (file : File) (l next : List ℕ) (h : AdtsHeader)
      → Behind file l
      → upcoming l whole ≡ adts_bytes h ++ next
      → ((read_header read rewind file).0 ≡ some (adts_bytes h))
        × Behind (read_header read rewind file).1 next
  unfolding read_header
  read_header_lem file [] next h b e =
      let at_end = is_file.reads 7 file [] b in
      let b' = is_file.rewinds (read 7 file).1 in
      let again = is_file.reads 7 (rewind (read 7 file).1) whole b' in
      let moved = is_file.moves 7 (rewind (read 7 file).1) whole b' in
      simp at_end (again ∙ ap (λ l. some (take 7 l)) e, subst (Behind _) (ap (drop 7) e) moved)
  read_header_lem file (x ∷ l) next h b e =
      let first = is_file.reads 7 file (x ∷ l) b in
      let moved = is_file.moves 7 file (x ∷ l) b in
      simp first (ap (λ l. some (take 7 l)) e, subst (Behind _) (ap (drop 7) e) moved)

  read_body_lem :
      (file : File) (tmp_buf body rest buf : List ℕ) (h : AdtsHeader)
      → Behind file (body ++ rest)
      → h.aac_frame_length ≡ 7 + length body
      → h.aac_frame_length ≤ length buf
      → h.aac_frame_length < 2 ^ 32
      → (frame : AacFrame File) × (read_body read rewind tmp_buf h buf file ≡ some frame)
        × (frame.size ≡ some h.aac_frame_length)
        × (frame.header ≡ h)
        × (frame.buffer ≡ overwrite (overwrite buf 0 tmp_buf) 7 body)
        × Behind frame.file rest
  unfolding read_body finish_frame
  read_body_lem file tmp_buf body rest buf h b n room small =
      let count : sub32 h.aac_frame_length 7 ≡ length body = omega arith in
      let got : (read (sub32 h.aac_frame_length 7) file).0 ≡ some body =
        is_file.reads _ file (body ++ rest) b
        ∙ ap (λ k. some (take k (body ++ rest))) count
        ∙ ap some (take-append_left body rest) in
      let moved =
        subst (Behind _) (ap (λ k. drop k (body ++ rest)) count ∙ drop-append_left body rest)
          (is_file.moves (sub32 h.aac_frame_length 7) file (body ++ rest) b) in
      let fits : leb (7 + length body) (length buf) ≡ true = le→leb _ _ (omega arith) in
      (
        _,
        ap (λ o. finish_frame o tmp_buf h buf (read (sub32 h.aac_frame_length 7) file).1) got
            ∙ simp fits refl,
        refl,
        refl,
        refl,
        moved,
      )

  -- Where the bytes that come next, behind the offset or, at its end, from the start of the file,
  -- are an ADTS header whose fields fit and the frame of the length that it tells, the source
  -- reads exactly this frame: it returns its length, the buffer begins with its header and its
  -- bytes, the header is parsed, and the offset stands behind it. The conditions: the frame is no
  -- longer than `size` and the buffer no shorter than it, the array for the header has seven
  -- bytes, and reads and seeks do what they document for a file.
  pub get_frame_from_aac_file_lem :
      (size : ℕ) (tmp_buf buf body rest l : List ℕ) (header h : AdtsHeader) (file : File)
      → Fits h
      → Behind file l
      → upcoming l whole ≡ adts_bytes h ++ body ++ rest
      → h.aac_frame_length ≡ 7 + length body
      → h.aac_frame_length ≤ size
      → size ≤ length buf
      → length tmp_buf ≡ 7
      → (frame : AacFrame File) × (get_frame_from_aac_file read rewind size tmp_buf header buf file
          ≡ some frame)
        × (frame.size ≡ some h.aac_frame_length)
        × (frame.header ≡ as_parsed h)
        × (take h.aac_frame_length frame.buffer ≡ adts_bytes h ++ body)
        × Behind frame.file rest
  unfolding get_frame_from_aac_file after_header check_header
  get_frame_from_aac_file_lem size tmp_buf buf body rest l header h file v b e n small room seven =
      let (got, behind) = read_header_lem file l (body ++ rest) h b e in
      let limit = v.aac_frame_length in
      let (frame, ended, f_size, f_header, f_buffer, f_file) =
        read_body_lem (read_header read rewind file).1 (adts_bytes h) body rest buf (as_parsed h)
          behind n (omega arith) (omega arith) in
      let read_in = overwrite_all tmp_buf (adts_bytes h) seven in
      let head = slice-overwrite buf 0 0 (adts_bytes h) {p = 0} {m = 7} refl refl (omega arith) in
      let whole_frame =
        slice-overwrite (overwrite buf 0 (adts_bytes h)) 0 7 body {p = 7} {m = h.aac_frame_length}
          refl n (omega (arith, length-overwrite buf 0 (adts_bytes h))) in
      let fits : leb h.aac_frame_length size ≡ true = le→leb _ _ small in
      let checked : check_header read rewind size (adts_bytes h) buf
            (read_header read rewind file).1
          ≡ read_body read rewind (adts_bytes h) (as_parsed h) buf
              (read_header read rewind file).1 =
        simp (parse_adts_header-adts_bytes h v, fits) refl in
      (
        frame,
        ap
              (λ o.
                after_header read rewind o size tmp_buf header buf (read_header read rewind file).1)
              got
            ∙ ap (λ t. check_header read rewind size t buf (read_header read rewind file).1) read_in
            ∙ checked
            ∙ ended,
        f_size,
        f_header,
        ap (take h.aac_frame_length) f_buffer ∙ whole_frame ∙ ap (λ t. t ++ body) head,
        f_file,
      )
