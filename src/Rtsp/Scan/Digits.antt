-- ===== src/Rtsp/Scan/Digits.antt =====
-- Reading back a number that was printed.
use my_rtsp_server.Prelude.{
  ℕ, zero, suc, ◌+◌, ◌-◌, ◌*◌, ◌/◌, ◌%◌, ◌^◌, ◌<◌, ◌≤◌, length, ◌≡◌, refl, ap, ◌∙◌, Bool, true,
  false, Option, some, List, [], ◌∷◌, ◌++◌, ◌==◌, ltb, lt→ltb, leb, if◌then◌else◌, ◌>>=◌,
  Bool-cases, inl, inr, arith,
}
use my_rtsp_server.Prelude.Text.{decimal, digits_from}
use my_rtsp_server.Rtsp.Scan.Spans.{all, scan_set-all, skip_space-other}
use my_rtsp_server.Rtsp.Scan.{
  c_str, is_digit, skip_space, scan_set, digits_value, sign_of, scan_uint, u64_max,
}

abbrev pub all_digits : List ℕ → Bool
all_digits l = all is_digit l

all_digits-digits_from :
    (fuel n : ℕ) (acc : List ℕ) → all_digits acc ≡ true → all_digits (digits_from fuel n acc) ≡ true
unfolding digits_from
all_digits-digits_from zero n acc h = h
all_digits-digits_from (suc fuel) n acc h =
    let more : all_digits ((b'0' + n % 10) ∷ acc) ≡ true = ground arith in
    ground (arith, more, all_digits-digits_from fuel (n / 10) ((b'0' + n % 10) ∷ acc) more)

-- Numbers of at most so many digits.
abbrev bound : ℕ → ℕ
bound zero = 1
bound (suc k) = 10 * bound k

digits_value-digits_from :
    (fuel n : ℕ) (acc : List ℕ)
    → n < bound (suc fuel)
    → digits_value 0 (digits_from (suc fuel) n acc) ≡ digits_value n acc
unfolding digits_from digits_value
digits_value-digits_from zero n acc h =
    let small : ltb n 10 ≡ true = lt→ltb n 10 (omega arith) in
    rw small (ap (λ v. digits_value v acc) (omega arith))
digits_value-digits_from (suc fuel) n acc h = elim (Bool-cases (ltb n 10)) [
  | inl small ↦
      let below : n < 10 = ground arith in rw small (ap (λ v. digits_value v acc) (omega arith))
  | inr large ↦ rw large (
      digits_value-digits_from fuel (n / 10) ((b'0' + n % 10) ∷ acc) (omega arith)
      ∙ ap (λ v. digits_value v acc) (omega arith))
]

digits_value-decimal : (n : ℕ) → n < 2 ^ 32 → digits_value 0 (decimal n) ≡ n
unfolding decimal digits_value
digits_value-decimal n h = digits_value-digits_from 19 n [] (omega arith)

pub all_digits-decimal : (n : ℕ) → all_digits (decimal n) ≡ true
unfolding decimal
all_digits-decimal n = all_digits-digits_from 20 n [] refl

nonempty_from :
    (fuel n : ℕ) (d : ℕ) (ds : List ℕ)
    → (c : ℕ) × (cs : List ℕ) × (digits_from fuel n (d ∷ ds) ≡ c ∷ cs)
unfolding digits_from
nonempty_from zero n d ds = (d, ds, refl)
nonempty_from (suc fuel) n d ds = elim (Bool-cases (ltb n 10)) [
  | inl small ↦ rw small (b'0' + n % 10, d ∷ ds, refl)
  | inr large ↦ rw large (nonempty_from fuel (n / 10) (b'0' + n % 10) (d ∷ ds))
]

decimal-cons : (n : ℕ) → (c : ℕ) × (cs : List ℕ) × (decimal n ≡ c ∷ cs)
unfolding decimal digits_from
decimal-cons n = elim (Bool-cases (ltb n 10)) [
  | inl small ↦ rw small (b'0' + n % 10, [], refl)
  | inr large ↦ rw large (nonempty_from 19 (n / 10) (b'0' + n % 10) [])
]

pub decimal_nonempty : (n : ℕ) → 1 ≤ length (decimal n)
decimal_nonempty n = let (c, cs, k) = decimal-cons n in rw k (omega arith)

pub c_str-all_digits : (l rest : List ℕ) → all_digits l ≡ true → c_str (l ++ rest) ≡ l ++ c_str rest
c_str-all_digits [] rest h = refl
c_str-all_digits (c ∷ cs) rest h =
    let later : all_digits cs ≡ true = ground arith in
    let some_digit : (c == 0) ≡ false = ground arith in
    rw (some_digit, c_str-all_digits cs rest later) refl

sign_of-digit : (c : ℕ) (cs : List ℕ) → is_digit c ≡ true → sign_of (c ∷ cs) ≡ (false, c ∷ cs)
unfolding sign_of
sign_of-digit c cs h =
    let minus : (c == b'-') ≡ false = ground arith in
    let plus : (c == b'+') ≡ false = ground arith in rw (minus, plus) refl

-- The part of the conversion behind the sign, and behind the digits.
abbrev pub word_of : ℕ → Bool → List ℕ → ℕ
word_of w negative front =
    (if leb (digits_value 0 front) u64_max
      then (if negative then (2 ^ 64 - digits_value 0 front) % 2 ^ 64 else digits_value 0 front)
      else u64_max)
    % 2 ^ w

abbrev behind_sign : ℕ → Bool × List ℕ → Option (ℕ × List ℕ)
behind_sign w p = do (front, rest) ← scan_set is_digit p.1; some (word_of w p.0 front, rest)

scan_uint-behind_sign :
    (w : ℕ) (l : List ℕ) → scan_uint w l ≡ behind_sign w (sign_of (skip_space l))
unfolding scan_uint
scan_uint-behind_sign w l = refl

pub scan_uint-space : (w : ℕ) (l : List ℕ) → scan_uint w (b' ' ∷ l) ≡ scan_uint w l
unfolding scan_uint skip_space
scan_uint-space w l = refl

unsigned :
    (l rest : List ℕ)
    → 1 ≤ length l
    → all_digits l ≡ true
    → sign_of (skip_space (l ++ rest)) ≡ (false, l ++ rest)
unsigned [] rest some_byte h = absurd (omega arith)
unsigned (x ∷ xs) rest some_byte h =
    let first : is_digit x ≡ true = ground arith in
    ap sign_of (skip_space-other x (xs ++ rest) (ground arith)) ∙ sign_of-digit x (xs ++ rest) first

-- A number, and a byte that is no digit.
pub scan_uint-digits :
    (w n : ℕ) (rest : List ℕ) (e : ℕ)
    → is_digit e ≡ false
    → scan_uint w (decimal n ++ (e ∷ rest)) ≡ some (word_of w false (decimal n), e ∷ rest)
scan_uint-digits w n rest e stop =
    let digits = all_digits-decimal n in
    let longer = decimal_nonempty n in
    scan_uint-behind_sign w (decimal n ++ (e ∷ rest))
    ∙ ap (behind_sign w) (unsigned (decimal n) (e ∷ rest) longer digits)
    ∙ ap (λ o. do (front, rest') ← o; some (word_of w false front, rest'))
        (scan_set-all is_digit (decimal n) rest e longer digits stop)

-- A space, a number of 32 bits, and a byte that is no digit.
pub scan_uint-decimal :
    (n : ℕ) (rest : List ℕ) (e : ℕ)
    → n < 2 ^ 32
    → is_digit e ≡ false
    → scan_uint 32 (b' ' ∷ decimal n ++ (e ∷ rest)) ≡ some (n, e ∷ rest)
scan_uint-decimal n rest e small stop =
    let word : word_of 32 false (decimal n) ≡ n =
      rw (digits_value-decimal n small) (ground arith) in
    scan_uint-space 32 (decimal n ++ (e ∷ rest))
    ∙ scan_uint-digits 32 n rest e stop
    ∙ ap (λ w. some (w, e ∷ rest)) word
