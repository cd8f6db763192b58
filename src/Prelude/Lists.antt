-- ===== src/Prelude/Lists.antt =====
-- Lists measured, cut and overwritten at native positions.
use Prim.Native.Nat.{ℕ, zero, suc, ◌+◌, ◌-◌, ◌≤◌, min}
use mathlib.Core.Path.{◌≡◌, refl, sym, ap, ◌∙◌}
use mathlib.Core.List.{List, [], ◌∷◌, ◌++◌}
use mathlib.Core.Option.{Option, none, some}
use native.Mathlib.Omega.{arith}

module _ {ℓ} {A : Type ℓ} where
  abbrev pub length : List A → ℕ
  length [] = 0
  length (x ∷ xs) = suc (length xs)

  abbrev pub get_elem? : List A → ℕ → Option A
  get_elem? [] i = none
  get_elem? (x ∷ xs) zero = some x
  get_elem? (x ∷ xs) (suc i) = get_elem? xs i

  abbrev pub get_or : List A → ℕ → A → A
  get_or [] i d = d
  get_or (x ∷ xs) zero d = x
  get_or (x ∷ xs) (suc i) d = get_or xs i d

  abbrev pub set : List A → ℕ → A → List A
  set [] i v = []
  set (x ∷ xs) zero v = v ∷ xs
  set (x ∷ xs) (suc i) v = x ∷ set xs i v

  abbrev pub take : ℕ → List A → List A
  take zero xs = []
  take (suc n) [] = []
  take (suc n) (x ∷ xs) = x ∷ take n xs

  abbrev pub drop : ℕ → List A → List A
  drop zero xs = xs
  drop (suc n) [] = []
  drop (suc n) (x ∷ xs) = drop n xs

  -- The bytes `src` copied over a block from position `i` on; what would fall past the end is lost.
  abbrev pub overwrite : List A → ℕ → List A → List A
  overwrite [] i src = []
  overwrite (x ∷ xs) zero [] = x ∷ xs
  overwrite (x ∷ xs) zero (y ∷ ys) = y ∷ overwrite xs zero ys
  overwrite (x ∷ xs) (suc i) src = x ∷ overwrite xs i src

  -- The `n` items from position `i` on.
  abbrev pub slice : ℕ → ℕ → List A → List A
  slice i n xs = take n (drop i xs)

module _ {ℓ} {A : Type ℓ} where
  pub length-append : (xs ys : List A) → length (xs ++ ys) ≡ length xs + length ys
  length-append [] ys = omega arith
  length-append (x ∷ xs) ys = omega (arith, length-append xs ys)

  pub length-take : (n : ℕ) (xs : List A) → length (take n xs) ≡ min n (length xs)
  length-take zero xs = omega arith
  length-take (suc n) [] = omega arith
  length-take (suc n) (x ∷ xs) = omega (arith, length-take n xs)

  pub length-drop : (n : ℕ) (xs : List A) → length (drop n xs) ≡ length xs - n
  length-drop zero xs = omega arith
  length-drop (suc n) [] = omega arith
  length-drop (suc n) (x ∷ xs) = omega (arith, length-drop n xs)

  pub length-slice : (i n : ℕ) (xs : List A) → i + n ≤ length xs → length (slice i n xs) ≡ n
  length-slice i n xs h = omega (arith, length-take n (drop i xs), length-drop i xs)

  pub length-overwrite :
      (xs : List A) (i : ℕ) (src : List A) → length (overwrite xs i src) ≡ length xs
  length-overwrite [] i src = refl
  length-overwrite (x ∷ xs) zero [] = refl
  length-overwrite (x ∷ xs) zero (y ∷ ys) = ap suc (length-overwrite xs zero ys)
  length-overwrite (x ∷ xs) (suc i) src = ap suc (length-overwrite xs i src)

  pub take_all : (n : ℕ) (xs : List A) → length xs ≤ n → take n xs ≡ xs
  take_all zero [] h = refl
  take_all zero (x ∷ xs) h = absurd (omega arith)
  take_all (suc n) [] h = refl
  take_all (suc n) (x ∷ xs) h = ap (◌∷◌ x) (take_all n xs (omega arith))

  pub drop_all : (n : ℕ) (xs : List A) → length xs ≤ n → drop n xs ≡ []
  drop_all zero [] h = refl
  drop_all zero (x ∷ xs) h = absurd (omega arith)
  drop_all (suc n) [] h = refl
  drop_all (suc n) (x ∷ xs) h = drop_all n xs (omega arith)

  pub take-append-drop : (n : ℕ) (xs : List A) → take n xs ++ drop n xs ≡ xs
  take-append-drop zero xs = refl
  take-append-drop (suc n) [] = refl
  take-append-drop (suc n) (x ∷ xs) = ap (◌∷◌ x) (take-append-drop n xs)

  pub take-append_left : (xs ys : List A) → take (length xs) (xs ++ ys) ≡ xs
  take-append_left [] ys = refl
  take-append_left (x ∷ xs) ys = ap (◌∷◌ x) (take-append_left xs ys)

  pub drop-append_left : (xs ys : List A) → drop (length xs) (xs ++ ys) ≡ ys
  drop-append_left [] ys = refl
  drop-append_left (x ∷ xs) ys = drop-append_left xs ys

  overwrite-zero :
      (d src : List A) (m : ℕ) → m ≡ length src → m ≤ length d → take m (overwrite d zero src) ≡ src
  overwrite-zero d [] m e h = rw e
  overwrite-zero [] (y ∷ ys) m e h = absurd (omega arith)
  overwrite-zero (x ∷ xs) (y ∷ ys) zero e h = absurd (omega arith)
  overwrite-zero (x ∷ xs) (y ∷ ys) (suc m) e h =
      ap (◌∷◌ y) (overwrite-zero xs ys m (omega arith) (omega arith))

  -- Writing just past a slice extends it.
  pub slice-overwrite :
      (d : List A) (i n : ℕ) (src : List A) {p m : ℕ}
      → p ≡ i + n
      → m ≡ n + length src
      → i + m ≤ length d
      → slice i m (overwrite d p src) ≡ slice i n d ++ src
  slice-overwrite d zero zero src {p} {m} q e h =
      let q' : p ≡ zero = omega arith in rw q' (overwrite-zero d src m (omega arith) (omega arith))
  slice-overwrite [] zero (suc n) src {p} {m} q e h = absurd (omega arith)
  slice-overwrite (x ∷ xs) zero (suc n) src {p = zero} {m} q e h = absurd (omega arith)
  slice-overwrite (x ∷ xs) zero (suc n) src {p = suc p} {m = zero} q e h = absurd (omega arith)
  slice-overwrite (x ∷ xs) zero (suc n) src {p = suc p} {m = suc m} q e h =
      ap (◌∷◌ x) (slice-overwrite xs zero n src (omega arith) (omega arith) (omega arith))
  slice-overwrite [] (suc i) n src {p} {m} q e h = absurd (omega arith)
  slice-overwrite (x ∷ xs) (suc i) n src {p = zero} {m} q e h = absurd (omega arith)
  slice-overwrite (x ∷ xs) (suc i) n src {p = suc p} {m} q e h =
      slice-overwrite xs i n src (omega arith) e (omega arith)

  pub slice-take : (i n m : ℕ) (xs : List A) → i + n ≤ m → slice i n (take m xs) ≡ slice i n xs
  slice-take zero zero m xs h = refl
  slice-take zero (suc n) zero xs h = absurd (omega arith)
  slice-take zero (suc n) (suc m) [] h = refl
  slice-take zero (suc n) (suc m) (x ∷ xs) h = ap (◌∷◌ x) (slice-take zero n m xs (omega arith))
  slice-take (suc i) n zero xs h = absurd (omega arith)
  slice-take (suc i) n (suc m) [] h = refl
  slice-take (suc i) n (suc m) (x ∷ xs) h = slice-take i n m xs (omega arith)

  drop-take : (k n : ℕ) (xs : List A) → drop k (take n xs) ≡ take (n - k) (drop k xs)
  drop-take zero n xs = ap (λ j. take j xs) (omega arith)
  drop-take (suc k) zero xs = let e : zero - suc k ≡ zero = omega arith in rw e
  drop-take (suc k) (suc n) [] = sym (take_all (suc n - suc k) [] (omega arith))
  drop-take (suc k) (suc n) (x ∷ xs) = drop-take k n xs ∙ ap (λ j. take j (drop k xs)) (omega arith)

  pub drop-drop : (k i : ℕ) (xs : List A) {j : ℕ} → j ≡ i + k → drop k (drop i xs) ≡ drop j xs
  drop-drop k zero xs e = ap (λ j. drop j xs) (omega arith)
  drop-drop zero (suc i) [] {j = zero} e = refl
  drop-drop (suc k) (suc i) [] {j = zero} e = refl
  drop-drop zero (suc i) [] {j = suc j} e = refl
  drop-drop (suc k) (suc i) [] {j = suc j} e = refl
  drop-drop k (suc i) (x ∷ xs) {j = zero} e = absurd (omega arith)
  drop-drop k (suc i) (x ∷ xs) {j = suc j} e = drop-drop k i xs (omega arith)

  -- Dropping from a slice moves its start.
  pub drop-slice :
      (k i n : ℕ) (xs : List A) {j m : ℕ}
      → j ≡ i + k
      → m ≡ n - k
      → drop k (slice i n xs) ≡ slice j m xs
  drop-slice k i n xs {j} {m} e f =
      drop-take k n (drop i xs) ∙ rw (← f) (ap (take m) (drop-drop k i xs e))

  slice-add_front :
      (n m : ℕ) (xs : List A) {k : ℕ} → k ≡ n + m → take k xs ≡ take n xs ++ slice n m xs
  slice-add_front zero m xs e = ap (λ j. take j xs) (omega arith)
  slice-add_front (suc n) m [] {k = zero} e = absurd (omega arith)
  slice-add_front (suc n) zero [] {k = suc k} e = refl
  slice-add_front (suc n) (suc m) [] {k = suc k} e = refl
  slice-add_front (suc n) m (x ∷ xs) {k = zero} e = absurd (omega arith)
  slice-add_front (suc n) m (x ∷ xs) {k = suc k} e =
      ap (◌∷◌ x) (slice-add_front n m xs (omega arith))

  -- Two slices that meet are one.
  pub slice-add :
      (i n m : ℕ) (xs : List A) {j k : ℕ}
      → j ≡ i + n
      → k ≡ n + m
      → slice i k xs ≡ slice i n xs ++ slice j m xs
  slice-add i n m xs e f =
      slice-add_front n m (drop i xs) f ∙ ap (λ d. slice i n xs ++ take m d) (drop-drop n i xs e)

  pub get_elem?-append_right :
      (xs ys : List A) (i : ℕ) → i ≡ length xs → get_elem? (xs ++ ys) i ≡ get_elem? ys 0
  get_elem?-append_right [] ys i e = rw e
  get_elem?-append_right (x ∷ xs) ys zero e = absurd (omega arith)
  get_elem?-append_right (x ∷ xs) ys (suc i) e = get_elem?-append_right xs ys i (omega arith)

abbrev pub replicate {ℓ} : {A : Type ℓ} → ℕ → A → List A
replicate zero x = []
replicate (suc n) x = x ∷ replicate n x

pub length-replicate {ℓ} : {A : Type ℓ} (n : ℕ) (x : A) → length (replicate n x) ≡ n
length-replicate zero x = refl
length-replicate (suc n) x = ap suc (length-replicate n x)

pub get_elem?-set_self {ℓ} :
    {A : Type ℓ} (l : List A) (i : ℕ) {x : A} (v : A)
    → get_elem? l i ≡ some x
    → get_elem? (set l i v) i ≡ some v
get_elem?-set_self [] i v e = cc
get_elem?-set_self (y ∷ l) zero v e = refl
get_elem?-set_self (y ∷ l) (suc i) v e = get_elem?-set_self l i v e

pub length-set {ℓ} : {A : Type ℓ} (l : List A) (i : ℕ) (v : A) → length (set l i v) ≡ length l
length-set [] i v = refl
length-set (y ∷ l) zero v = refl
length-set (y ∷ l) (suc i) v = ap suc (length-set l i v)
