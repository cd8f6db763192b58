-- ===== src/Source/StartCode.antt =====
-- The search of `FindNextStartCode` and the cut of a frame out of the bytes of a file.
use my_rtsp_server.Prelude.{
  ℕ, zero, suc, ◌+◌, ◌-◌, ◌≤◌, ◌≡◌, refl, subst, ap, ◌∙◌, Bool, true, false, Option, none, some,
  List, [], ◌∷◌, ltb, ◌==◌, if◌then◌else◌, length, drop, Returns, Returns-map, arith, Bool-cases,
  ◌⊎◌, inl, inr, le→ltb,
}
use my_rtsp_server.Source.{
  matches, start_code3, any_start_code, scan_start_code, find_next_start_code,
}

-- A code is compared without a read outside where enough bytes stand.
matches-answer :
    (code buf : List ℕ) → length code ≤ length buf → (b : Bool) × (matches code buf ≡ some b)
unfolding matches
matches-answer [] buf h = (true, refl)
matches-answer (x ∷ xs) [] h = absurd (omega arith)
matches-answer (x ∷ xs) (b ∷ buf) h = elim (Bool-cases (b == x)) [
  | inl e ↦ rw e (matches-answer xs buf (omega arith))
  | inr e ↦ rw e (false, refl)
]

-- The test of one round of the loop.
any_start_code-cases :
    (buf : List ℕ)
    → 4 ≤ length buf
    → (any_start_code buf ≡ some true)
      ⊎ ((any_start_code buf ≡ some false) × (start_code3 buf ≡ some false))
any_start_code-cases buf h =
    let (b, q) = matches-answer (0 ∷ 0 ∷ 1 ∷ []) buf (omega arith) in
    let (d, r) = matches-answer (0 ∷ 0 ∷ 0 ∷ 1 ∷ []) buf h in
    elim (Bool-cases b) [
      | inl e ↦ rw (q, e) (inl refl)
      | inr e ↦ elim (Bool-cases d) [
        | inl f ↦ rw (q, e, r, f) (inl refl)
        | inr f ↦ rw (q, e, r, f) (inr (refl, refl))
      ]
    ]

-- What the search says of the bytes that it runs over: `i` is any place of them.
Scanned : ℕ → List ℕ → ℕ → Option ℕ → Type 0
Scanned at buf i none = (start_code3 (drop i buf) ≡ some false)
Scanned at buf i (some k) =
    (at ≤ k)
    × (any_start_code (drop (k - at) buf) ≡ some true)
    × ((if ltb (at + i) k then start_code3 (drop i buf) else some false) ≡ some false)

Scanned-here :
    (at i : ℕ) (buf : List ℕ) → any_start_code buf ≡ some true → Scanned at buf i (some at)
unfolding Scanned
Scanned-here at i buf q =
    let none_left : at - at ≡ 0 = omega arith in
    (omega arith, rw none_left q, rw (le→ltb (at + i) at (omega arith)) refl)

Scanned-later :
    (at i : ℕ) (b : ℕ) (buf : List ℕ) (o : Option ℕ)
    → Scanned (suc at) buf i o
    → Scanned at (b ∷ buf) (suc i) o
unfolding Scanned
Scanned-later at i b buf none h = h
Scanned-later at i b buf (some k) (l, q, f) =
    let one_more : k - at ≡ suc (k - suc at) = omega arith in
    let moved : at + suc i ≡ suc at + i = omega arith in (omega arith, rw one_more q, rw moved f)

Scanned-first :
    (at i : ℕ) (b : ℕ) (buf : List ℕ) (o : Option ℕ)
    → start_code3 (b ∷ buf) ≡ some false
    → Scanned (suc at) buf i o
    → Scanned at (b ∷ buf) zero o
unfolding Scanned
Scanned-first at i b buf none t h = t
Scanned-first at i b buf (some k) t (l, q, f) =
    let one_more : k - at ≡ suc (k - suc at) = omega arith in
    (
      omega arith,
      rw one_more q,
      rw t (elim (Bool-cases (ltb (at + 0) k)) [ inl e ↦ rw e refl | inr e ↦ rw e refl ]),
    )

scan_start_code-Scanned :
    (n at i : ℕ) (buf : List ℕ)
    → n + 3 ≤ length buf
    → i ≤ n
    → Returns (Scanned at buf i) (scan_start_code n at buf)
unfolding scan_start_code Scanned
scan_start_code-Scanned zero at (suc i) buf e h = absurd (omega arith)
scan_start_code-Scanned zero at zero buf e h =
    let (b, q) = matches-answer (0 ∷ 0 ∷ 1 ∷ []) buf (omega arith) in
    elim (Bool-cases b) [
      | inl f ↦ rw (q, f) (Scanned-here at zero buf (rw (q, f) refl))
      | inr f ↦ rw (q, f) (q ∙ ap some f)
    ]
scan_start_code-Scanned (suc n) at i [] e h = absurd (omega arith)
scan_start_code-Scanned (suc n) at zero (b ∷ buf) e h =
    elim (any_start_code-cases (b ∷ buf) (omega arith)) [
      | inl q ↦ rw q (Scanned-here at zero (b ∷ buf) q)
      | inr (q, t) ↦ rw q (
          Returns-map (scan_start_code n (suc at) buf) (λ o. Scanned-first at zero b buf o t)
            (scan_start_code-Scanned n (suc at) zero buf (omega arith) (omega arith)))
    ]
scan_start_code-Scanned (suc n) at (suc i) (b ∷ buf) e h =
    elim (any_start_code-cases (b ∷ buf) (omega arith)) [
      | inl q ↦ rw q (Scanned-here at (suc i) (b ∷ buf) q)
      | inr (q, t) ↦ rw q (
          Returns-map (scan_start_code n (suc at) buf) (Scanned-later at i b buf)
            (scan_start_code-Scanned n (suc at) i buf (omega arith) (omega arith)))
    ]

-- What a search that begins at `buf` says of the place `i`: a null pointer means that no start code
-- of three bytes stands there; a result is the place of a start code, and `i` holds none of three
-- bytes if it stands before it.
abbrev pub Found : List ℕ → ℕ → Option ℕ → Type 0
Found buf i none = (start_code3 (drop i buf) ≡ some false)
Found buf i (some k) =
    (any_start_code (drop k buf) ≡ some true)
    × ((if ltb i k then start_code3 (drop i buf) else some false) ≡ some false)

Scanned-Found : (i : ℕ) (buf : List ℕ) (o : Option ℕ) → Scanned 0 buf i o → Found buf i o
unfolding Scanned
Scanned-Found i buf none s = s
Scanned-Found i buf (some k) (l, q, f) =
    let same_place : k - 0 ≡ k = omega arith in
    let same_start : 0 + i ≡ i = omega arith in
    (
      subst (λ j. any_start_code (drop j buf) ≡ some true) same_place q,
      subst (λ j. (if ltb j k then start_code3 (drop i buf) else some false) ≡ some false)
          same_start f,
    )

-- In `len` bytes, which stand at `buf`, the search reads nothing outside the memory there. A null
-- pointer means that the place `i` holds no start code of three bytes; a result is the place of a
-- start code, and `i`, where it stands before it, holds none of three bytes. `i` is any place at
-- which three of the bytes stand.
pub find_next_start_code_lem :
    (i len : ℕ) (buf : List ℕ)
    → i + 3 ≤ len
    → len ≤ length buf
    → Returns (Found buf i) (find_next_start_code buf len)
unfolding find_next_start_code
find_next_start_code_lem i len buf h l = rw (le→ltb len 3 (omega arith)) (
    Returns-map (scan_start_code (len - 3) 0 buf) (Scanned-Found i buf)
      (scan_start_code-Scanned (len - 3) 0 i buf (omega arith) (omega arith)))
