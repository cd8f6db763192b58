-- ===== src/Rtsp/Scan.antt =====
-- What src/net/rtsp_connection.cpp uses of `sscanf`, `strcmp` and `std::string::find`, over bytes.
-- A pattern is read piece by piece: `none` is a piece that does not match.
pub mod Spans
pub mod Digits
use mathlib.Core.Option
use my_rtsp_server.Prelude.{
  ℕ, suc, ◌+◌, ◌-◌, ◌*◌, ◌%◌, ◌^◌, Bool, true, false, not, ◌&&◌, ◌||◌, Option, none, some, List, [],
  ◌∷◌, ◌==◌, leb, if◌then◌else◌, ◌>>=◌, drop,
}

-- The bytes before the first NUL.
abbrev pub c_str : List ℕ → List ℕ
c_str [] = []
c_str (x ∷ xs) = if x == 0 then [] else x ∷ c_str xs

abbrev pub is_space : ℕ → Bool
is_space c = (c == 32) || (leb 9 c && leb c 13)

abbrev pub is_digit : ℕ → Bool
is_digit c = leb b'0' c && leb c b'9'

unfoldable pub skip_space : List ℕ → List ℕ
skip_space [] = []
skip_space (x ∷ xs) = let rest = skip_space xs in if is_space x then rest else x ∷ xs

-- The longest front whose bytes pass the test, and the rest.
unfoldable pub span : (ℕ → Bool) → List ℕ → List ℕ × List ℕ
span p [] = ([], [])
span p (x ∷ xs) = let (front, rest) = span p xs in if p x then (x ∷ front, rest) else ([], x ∷ xs)

unfoldable pub nonempty : List ℕ × List ℕ → Option (List ℕ × List ℕ)
nonempty ([], rest) = none
nonempty (x ∷ front, rest) = some (x ∷ front, rest)

-- `%[...]`.
unfoldable pub scan_set : (ℕ → Bool) → List ℕ → Option (List ℕ × List ℕ)
unfolding span nonempty
scan_set p l = nonempty (span p l)

-- `%s`.
unfoldable pub scan_word : List ℕ → Option (List ℕ × List ℕ)
unfolding skip_space scan_set
scan_word l = scan_set (λ c. not (is_space c)) (skip_space l)

-- A byte of the pattern that is no space.
unfoldable pub scan_byte : ℕ → List ℕ → Option (List ℕ)
scan_byte c [] = none
scan_byte c (x ∷ xs) = if x == c then some xs else none

unfoldable pub digits_value : ℕ → List ℕ → ℕ
digits_value acc [] = acc
digits_value acc (d ∷ ds) = digits_value (acc * 10 + (d - b'0')) ds

abbrev pub u64_max : ℕ
u64_max = 2 ^ 64 - 1

unfoldable pub sign_of : List ℕ → Bool × List ℕ
sign_of [] = (false, [])
sign_of (x ∷ xs) =
    if x == b'-' then (true, xs) else if x == b'+' then (false, xs) else (false, x ∷ xs)

-- `%u`, `%hu` and `%hhu` for w = 32, 16 and 8: `strtoul` over 64 bits, of which w are stored.
unfoldable pub scan_uint : ℕ → List ℕ → Option (ℕ × List ℕ)
unfolding skip_space scan_set sign_of digits_value
scan_uint w l = do
  let (negative, digits) = sign_of (skip_space l)
  (front, rest) ← scan_set is_digit digits
  let value = digits_value 0 front
  let word =
      (if leb value u64_max
        then (if negative then (2 ^ 64 - value) % 2 ^ 64 else value)
        else u64_max)
  some (word % 2 ^ w, rest)

unfoldable pub starts_with : List ℕ → List ℕ → Bool
starts_with [] l = true
starts_with (x ∷ xs) [] = false
starts_with (x ∷ xs) (y ∷ ys) = (x == y) && starts_with xs ys

-- `std::string::find`.
unfoldable pub find : List ℕ → List ℕ → Option ℕ
unfolding starts_with
find needle [] = if starts_with needle [] then some 0 else none
find needle (x ∷ xs) =
    let later = Option.map suc (find needle xs) in
    if starts_with needle (x ∷ xs) then some 0 else later

-- What stands from the first occurrence on.
unfoldable pub find_from : List ℕ → List ℕ → Option (List ℕ)
unfolding find
find_from needle l = Option.map (λ i. drop i l) (find needle l)
