-- ===== src/Buffer/Search.antt =====
-- The searches of include/net/buffer.h: the first and the last "\r\n" of the readable bytes.
-- A position is the distance from `Peek()`; `none` is the null pointer.
use mathlib.Core.Option
use my_rtsp_server.Prelude.{
  ℕ, zero, suc, ◌+◌, ◌≤◌, ◌<◌, ◌≡◌, Bool, false, ◌&&◌, Option, none, some, List, [], ◌∷◌,
  Option-cases, arith, ◌==◌, if◌then◌else◌, length, drop, get_elem?, inl, inr,
}
use my_rtsp_server.Buffer.{Buffer, peek}

-- "\r\n" stands at the front.
abbrev starts_crlf : List ℕ → Bool
starts_crlf [] = false
starts_crlf (a ∷ []) = false
starts_crlf (a ∷ b ∷ rest) = (a == 13) && (b == 10)

-- `std::search` for "\r\n".
pub search_crlf : List ℕ → Option ℕ
search_crlf [] = none
search_crlf (a ∷ rest) =
    let later = Option.map suc (search_crlf rest) in
    if starts_crlf (a ∷ rest) then some 0 else later

-- `std::find_end` for "\r\n".
pub find_end_crlf : List ℕ → Option ℕ
find_end_crlf [] = none
find_end_crlf (a ∷ rest) = elim (find_end_crlf rest) [
  | some i ↦ some (suc i)
  | none ↦ if starts_crlf (a ∷ rest) then some 0 else none
]

pub find_crlf : Buffer → Option ℕ
unfolding search_crlf
find_crlf b = search_crlf (peek b)

-- `FindCRLF(start)`, with `start` as its distance from `Peek()`.
pub find_crlf_from : ℕ → Buffer → Option ℕ
unfolding search_crlf
find_crlf_from start b = Option.map (λ i. start + i) (search_crlf (drop start (peek b)))

pub find_last_crlf : Buffer → Option ℕ
unfolding find_end_crlf
find_last_crlf b = find_end_crlf (peek b)

abbrev pub CrlfAt : ℕ → List ℕ → Type 0
CrlfAt i l = (get_elem? l i ≡ some 13) × (get_elem? l (suc i) ≡ some 10)

search_crlf-none : (l : List ℕ) → search_crlf l ≡ none → (j : ℕ) → ¬ CrlfAt j l
unfolding search_crlf
search_crlf-none [] h j c = cc
search_crlf-none (a ∷ []) h zero c = cc
search_crlf-none (a ∷ []) h (suc j) c = cc
search_crlf-none (a ∷ b ∷ r) h zero c = ground arith
search_crlf-none (a ∷ b ∷ r) h (suc j) c = search_crlf-none (b ∷ r) (ground arith) j c

search_crlf_at : (l : List ℕ) (i : ℕ) → search_crlf l ≡ some i → CrlfAt i l
unfolding search_crlf
search_crlf_at [] i h = cc
search_crlf_at (a ∷ []) i h = cc
search_crlf_at (a ∷ b ∷ r) zero h = ground arith
search_crlf_at (a ∷ b ∷ r) (suc i) h = search_crlf_at (b ∷ r) i (ground arith)

search_crlf_before : (l : List ℕ) (i : ℕ) → search_crlf l ≡ some i → (j : ℕ) → j < i → ¬ CrlfAt j l
unfolding search_crlf
search_crlf_before [] i h j k c = cc
search_crlf_before (a ∷ []) i h j k c = cc
search_crlf_before (a ∷ b ∷ r) zero h j k c = absurd (omega arith)
search_crlf_before (a ∷ b ∷ r) (suc i) h zero k c = ground arith
search_crlf_before (a ∷ b ∷ r) (suc i) h (suc j) k c =
    search_crlf_before (b ∷ r) i (ground arith) j (omega arith) c

find_end_crlf-none : (l : List ℕ) → find_end_crlf l ≡ none → (j : ℕ) → ¬ CrlfAt j l
unfolding find_end_crlf
find_end_crlf-none [] h j c = cc
find_end_crlf-none (a ∷ []) h zero c = cc
find_end_crlf-none (a ∷ []) h (suc j) c = cc
find_end_crlf-none (a ∷ b ∷ r) h zero c = ground arith
find_end_crlf-none (a ∷ b ∷ r) h (suc j) c = find_end_crlf-none (b ∷ r) (ground arith) j c

find_end_crlf_at : (l : List ℕ) (i : ℕ) → find_end_crlf l ≡ some i → CrlfAt i l
unfolding find_end_crlf
find_end_crlf_at [] i h = cc
find_end_crlf_at (a ∷ []) i h = cc
find_end_crlf_at (a ∷ b ∷ r) zero h = ground arith
find_end_crlf_at (a ∷ b ∷ r) (suc i) h = find_end_crlf_at (b ∷ r) i (ground arith)

find_end_crlf_after :
    (l : List ℕ) (i : ℕ) → find_end_crlf l ≡ some i → (j : ℕ) → i < j → ¬ CrlfAt j l
unfolding find_end_crlf
find_end_crlf_after [] i h j k c = cc
find_end_crlf_after (a ∷ []) i h zero k c = absurd (omega arith)
find_end_crlf_after (a ∷ []) i h (suc j) k c = cc
find_end_crlf_after (a ∷ b ∷ r) i h zero k c = absurd (omega arith)
find_end_crlf_after (a ∷ b ∷ r) zero h (suc j) k c = find_end_crlf-none (b ∷ r) (ground arith) j c
find_end_crlf_after (a ∷ b ∷ r) (suc i) h (suc j) k c =
    find_end_crlf_after (b ∷ r) i (ground arith) j (omega arith) c

-- A found "\r\n" lies whole within the readable bytes.
pub CrlfAt-lt : (l : List ℕ) (i : ℕ) → CrlfAt i l → i + 2 ≤ length l
CrlfAt-lt [] i c = cc
CrlfAt-lt (a ∷ []) zero c = cc
CrlfAt-lt (a ∷ []) (suc i) c = cc
CrlfAt-lt (a ∷ b ∷ r) zero c = omega arith
CrlfAt-lt (a ∷ b ∷ r) (suc i) c = omega (arith, CrlfAt-lt (b ∷ r) i c)

abbrev pub FirstCrlf : List ℕ → Option ℕ → Type 0
FirstCrlf l none = (j : ℕ) → ¬ CrlfAt j l
FirstCrlf l (some i) = CrlfAt i l × ((j : ℕ) → j < i → ¬ CrlfAt j l)

abbrev pub LastCrlf : List ℕ → Option ℕ → Type 0
LastCrlf l none = (j : ℕ) → ¬ CrlfAt j l
LastCrlf l (some i) = CrlfAt i l × ((j : ℕ) → i < j → ¬ CrlfAt j l)

search_crlf-FirstCrlf : (l : List ℕ) → FirstCrlf l (search_crlf l)
search_crlf-FirstCrlf l = elim (Option-cases (search_crlf l)) [
  | inl e ↦ rw e (search_crlf-none l e)
  | inr (i, e) ↦ rw e (search_crlf_at l i e, search_crlf_before l i e)
]

find_end_crlf-LastCrlf : (l : List ℕ) → LastCrlf l (find_end_crlf l)
find_end_crlf-LastCrlf l = elim (Option-cases (find_end_crlf l)) [
  | inl e ↦ rw e (find_end_crlf-none l e)
  | inr (i, e) ↦ rw e (find_end_crlf_at l i e, find_end_crlf_after l i e)
]

-- `FindCRLF` gives the first "\r\n" of the readable bytes and `FindLastCRLF` the last; each gives
-- a null pointer exactly where there is none.
pub find_crlf_first_last :
    (b : Buffer) → FirstCrlf (peek b) (find_crlf b) × LastCrlf (peek b) (find_last_crlf b)
unfolding find_crlf find_last_crlf
find_crlf_first_last b = (search_crlf-FirstCrlf (peek b), find_end_crlf-LastCrlf (peek b))
