-- ===== src/Source/Cut.antt =====
-- One chunk of the file becomes one frame.
use my_rtsp_server.Prelude.{
  ℕ, zero, suc, ◌+◌, ◌-◌, ◌^◌, ◌≤◌, ◌<◌, ◌≡◌, refl, ap, ◌∙◌, true, false, some, List, [], ◌∷◌, ◌++◌,
  arith, le→ltb, sub32, sub32-sub, length, drop, overwrite,
}
use my_rtsp_server.Source.{
  matches, any_start_code, scan_start_code, find_next_start_code, back, cut_frame,
}

-- The first start code from `buf` on is `n` bytes further.
pub record IsNext (n : ℕ) (buf : List ℕ) : Type 0 where
  pub here : any_start_code (drop n buf) ≡ some true
  pub none_before : (i : ℕ) → i < n → any_start_code (drop i buf) ≡ some false

scan_start_code-next :
    (rounds n at : ℕ) (buf : List ℕ)
    → n < rounds
    → IsNext n buf
    → scan_start_code rounds at buf ≡ some (some (at + n))
unfolding scan_start_code
scan_start_code-next zero n at buf h v = absurd (omega arith)
scan_start_code-next (suc rounds) zero at buf h v =
    rw v.here (ap (λ k. some (some k)) (omega arith))
scan_start_code-next (suc rounds) (suc n) at [] h v =
    let first = v.none_before 0 (omega arith) in cc
scan_start_code-next (suc rounds) (suc n) at (b ∷ buf) h v =
    let first : any_start_code (b ∷ buf) ≡ some false = v.none_before 0 (omega arith) in
    let later : IsNext n buf = record {
      here = v.here;
      none_before = λ i below. v.none_before (suc i) (omega arith);
    } in
    rw first (
      scan_start_code-next rounds n (suc at) buf (omega arith) later
      ∙ ap (λ k. some (some k)) (omega arith))

find_next_start_code-next :
    (len n : ℕ) (buf : List ℕ)
    → n + 4 ≤ len
    → IsNext n buf
    → find_next_start_code buf len ≡ some (some n)
unfolding find_next_start_code
find_next_start_code-next len n buf h v =
    rw (le→ltb len 3 (omega arith)) (
      scan_start_code-next (len - 3) n 0 buf (omega arith) v
      ∙ ap (λ k. some (some k)) (omega arith))

-- The cut of a frame that begins with a start code and is followed by the next one.
pub cut_frame-next :
    (r_size n : ℕ) (frame : List ℕ)
    → any_start_code frame ≡ some true
    → IsNext n (drop 3 frame)
    → n + 7 ≤ r_size
    → r_size < 2 ^ 31
    → cut_frame r_size frame ≡ some (record { size = some (3 + n); seek = back (r_size - (3 + n)) })
unfolding cut_frame
cut_frame-next r_size n frame h v fits small =
    let less = sub32-sub r_size 3 (omega arith) (omega arith) in
    let moved = sub32-sub r_size (3 + n) (omega arith) (omega arith) in
    rw (h, find_next_start_code-next (sub32 r_size 3) n (drop 3 frame) (omega (arith, less)) v)
      (ap (λ k. some (record { size = some (3 + n); seek = back k })) moved)

pub matches-append :
    (code buf rest : List ℕ)
    → length code ≤ length buf
    → matches code (buf ++ rest) ≡ matches code buf
unfolding matches
matches-append [] buf rest h = refl
matches-append (x ∷ xs) [] rest h = absurd (omega arith)
matches-append (x ∷ xs) (b ∷ buf) rest h = rw (matches-append xs buf rest (omega arith)) refl

pub any_start_code-append :
    (buf rest : List ℕ) → 4 ≤ length buf → any_start_code (buf ++ rest) ≡ any_start_code buf
any_start_code-append buf rest h =
    rw
      (
        matches-append (0 ∷ 0 ∷ 1 ∷ []) buf rest (omega arith),
        matches-append (0 ∷ 0 ∷ 0 ∷ 1 ∷ []) buf rest h,
      )
      refl

pub drop-append : (i : ℕ) (xs ys : List ℕ) → i ≤ length xs → drop i (xs ++ ys) ≡ drop i xs ++ ys
drop-append zero xs ys h = refl
drop-append (suc i) [] ys h = absurd (omega arith)
drop-append (suc i) (x ∷ xs) ys h = drop-append i xs ys (omega arith)

pub length-drop : (i : ℕ) (xs : List ℕ) → length (drop i xs) ≡ length xs - i
length-drop zero xs = omega arith
length-drop (suc i) [] = omega arith
length-drop (suc i) (x ∷ xs) = omega (arith, length-drop i xs)

pub overwrite_front :
    (d src : List ℕ) → length src ≤ length d → overwrite d 0 src ≡ src ++ drop (length src) d
overwrite_front [] [] h = refl
overwrite_front (x ∷ d) [] h = refl
overwrite_front [] (y ∷ ys) h = absurd (omega arith)
overwrite_front (x ∷ d) (y ∷ ys) h = ap (◌∷◌ y) (overwrite_front d ys (omega arith))

-- The bytes behind those that are looked at do not matter.
pub IsNext-append :
    (n : ℕ) (buf rest : List ℕ) → n + 4 ≤ length buf → IsNext n buf → IsNext n (buf ++ rest)
IsNext-append n buf rest h v = record {
  here = moved n (omega arith) ∙ v.here;
  none_before = λ i below. moved i (omega arith) ∙ v.none_before i below;
}
  where
    moved : (i : ℕ) → i ≤ n → any_start_code (drop i (buf ++ rest)) ≡ any_start_code (drop i buf)
    moved i le =
        ap any_start_code (drop-append i buf rest (omega arith))
        ∙ any_start_code-append (drop i buf) rest (omega (arith, length-drop i buf))
