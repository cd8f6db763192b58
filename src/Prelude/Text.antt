-- ===== src/Prelude/Text.antt =====
-- Byte strings: literals, and what `printf` and `snprintf` make of numbers and buffers.
use Prim.Native.Nat.{ℕ, zero, suc, ◌+◌, ◌-◌, ◌/◌, ◌%◌, ◌≤◌}
use Prim.Native.Char.{code}
use Prim.Native.String.{String}
use mathlib.Core.Path.{◌≡◌, refl, ap, ◌∙◌}
use mathlib.Core.Bool.{Bool, true, false, ◌&&◌}
use mathlib.Core.List.{List, [], ◌∷◌, ◌++◌, append_assoc}
use native.Mathlib.Omega.{arith}
use my_rtsp_server.Prelude.Tests.{◌==◌, if◌then◌else◌, ltb}
use my_rtsp_server.Prelude.Lists.{length, take, length-take}

abbrev pub codes : String → List ℕ
codes String.[] = []
codes (String.◌∷◌ c s) = code c ∷ codes s

-- A carriage return and a line feed.
abbrev pub crlf : List ℕ
crlf = 13 ∷ 10 ∷ []

unfoldable pub line : String → List ℕ
line s = codes s ++ crlf

unfoldable pub digits_from : ℕ → ℕ → List ℕ → List ℕ
digits_from zero n acc = acc
digits_from (suc fuel) n acc =
    let acc' = (b'0' + n % 10) ∷ acc in
    let rest = digits_from fuel (n / 10) acc' in if ltb n 10 then acc' else rest

-- `%u`: the digits of a number of at most twenty digits.
unfoldable pub decimal : ℕ → List ℕ
unfolding digits_from
decimal n = digits_from 20 n []

abbrev hex_digit : ℕ → ℕ
hex_digit d = if ltb d 10 then b'0' + d else b'a' + (d - 10)

-- `%0kx`: the k low hexadecimal digits.
unfoldable pub hex : ℕ → ℕ → List ℕ
hex zero n = []
hex (suc k) n = hex k (n / 16) ++ (hex_digit (n % 16) ∷ [])

-- `snprintf(buf + strlen(buf), size - strlen(buf), ...)`: what does not fit is cut off.
unfoldable pub print_more : ℕ → List ℕ → List ℕ → List ℕ
print_more size buf text = take (size - 1) (buf ++ text)

take-take-append : (n : ℕ) (xs ys : List ℕ) → take n (take n xs ++ ys) ≡ take n (xs ++ ys)
take-take-append zero xs ys = refl
take-take-append (suc n) [] ys = refl
take-take-append (suc n) (x ∷ xs) ys = ap (◌∷◌ x) (take-take-append n xs ys)

-- Two prints are one print of both texts.
pub print_more-print_more :
    (size : ℕ) (buf a b : List ℕ)
    → print_more size (print_more size buf a) b ≡ print_more size buf (a ++ b)
unfolding print_more
print_more-print_more size buf a b =
    take-take-append (size - 1) (buf ++ a) b ∙ ap (take (size - 1)) (append_assoc buf a b)

pub length-print_more : (size : ℕ) (buf a : List ℕ) → length (print_more size buf a) ≤ size - 1
unfolding print_more
length-print_more size buf a = omega (arith, length-take (size - 1) (buf ++ a))

-- Byte strings compared.
unfoldable pub bytes_eq : List ℕ → List ℕ → Bool
bytes_eq [] [] = true
bytes_eq [] (y ∷ ys) = false
bytes_eq (x ∷ xs) [] = false
bytes_eq (x ∷ xs) (y ∷ ys) = (x == y) && bytes_eq xs ys

pub bytes_eq_refl : (xs : List ℕ) → bytes_eq xs xs ≡ true
unfolding bytes_eq
bytes_eq_refl [] = refl
bytes_eq_refl (x ∷ xs) = ground (arith, bytes_eq_refl xs)

pub bytes_eq-eq : (xs ys : List ℕ) → bytes_eq xs ys ≡ true → xs ≡ ys
unfolding bytes_eq
bytes_eq-eq [] [] h = refl
bytes_eq-eq [] (y ∷ ys) h = cc
bytes_eq-eq (x ∷ xs) [] h = cc
bytes_eq-eq (x ∷ xs) (y ∷ ys) h = ground (arith, bytes_eq-eq xs ys)

length-digits_from :
    (fuel n : ℕ) (acc : List ℕ) → length (digits_from fuel n acc) ≤ fuel + length acc
unfolding digits_from
length-digits_from zero n acc = omega arith
length-digits_from (suc fuel) n acc =
    ground (arith, length-digits_from fuel (n / 10) ((b'0' + n % 10) ∷ acc))

pub length-decimal : (n : ℕ) → length (decimal n) ≤ 20
unfolding decimal
length-decimal n = omega (arith, length-digits_from 20 n [])
