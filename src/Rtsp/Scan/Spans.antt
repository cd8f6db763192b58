-- ===== src/Rtsp/Scan/Spans.antt =====
-- What the pieces of a pattern read of a text whose bytes are known.
use my_rtsp_server.Prelude.{
  ℕ, ◌≤◌, ◌≡◌, refl, sym, ap, ◌∙◌, Bool, true, false, not, ◌&&◌, some, List, [], ◌∷◌, ◌++◌, ◌==◌,
  length, append-nil, arith,
}
use my_rtsp_server.Rtsp.Scan.{c_str, is_space, skip_space, span, nonempty, scan_set, scan_word}

abbrev pub all : (ℕ → Bool) → List ℕ → Bool
all p [] = true
all p (c ∷ cs) = p c && all p cs

-- A byte that a word of a request can have.
abbrev pub is_plain : ℕ → Bool
is_plain c = not (c == 0) && not (is_space c)

pub all-append :
    (p : ℕ → Bool) (xs ys : List ℕ) → all p xs ≡ true → all p ys ≡ true → all p (xs ++ ys) ≡ true
all-append p [] ys h k = k
all-append p (x ∷ xs) ys h k =
    let later : all p xs ≡ true = ground arith in ground (arith, all-append p xs ys later k)

pub all-imp :
    (p q : ℕ → Bool)
    → ((c : ℕ) → p c ≡ true → q c ≡ true)
    → (l : List ℕ) → all p l ≡ true
    → all q l ≡ true
all-imp p q imp [] h = refl
all-imp p q imp (c ∷ cs) h =
    let here : p c ≡ true = ground arith in
    let later : all p cs ≡ true = ground arith in rw (imp c here, all-imp p q imp cs later) refl

pub span-all :
    (p : ℕ → Bool) (l rest : List ℕ) (e : ℕ)
    → all p l ≡ true
    → p e ≡ false
    → span p (l ++ (e ∷ rest)) ≡ (l, e ∷ rest)
unfolding span
span-all p [] rest e h k = rw k refl
span-all p (c ∷ cs) rest e h k =
    let here : p c ≡ true = ground arith in
    let later : all p cs ≡ true = ground arith in rw (here, span-all p cs rest e later k) refl

pub span-all_end : (p : ℕ → Bool) (l : List ℕ) → all p l ≡ true → span p l ≡ (l, [])
unfolding span
span-all_end p [] h = refl
span-all_end p (c ∷ cs) h =
    let here : p c ≡ true = ground arith in
    let later : all p cs ≡ true = ground arith in rw (here, span-all_end p cs later) refl

pub scan_set-all :
    (p : ℕ → Bool) (l rest : List ℕ) (e : ℕ)
    → 1 ≤ length l
    → all p l ≡ true
    → p e ≡ false
    → scan_set p (l ++ (e ∷ rest)) ≡ some (l, e ∷ rest)
unfolding scan_set nonempty
scan_set-all p [] rest e some_byte h stop = absurd (omega arith)
scan_set-all p (x ∷ xs) rest e some_byte h stop = ap nonempty (span-all p (x ∷ xs) rest e h stop)

pub scan_set-all_end :
    (p : ℕ → Bool) (l : List ℕ) → 1 ≤ length l → all p l ≡ true → scan_set p l ≡ some (l, [])
unfolding scan_set nonempty
scan_set-all_end p [] some_byte h = absurd (omega arith)
scan_set-all_end p (x ∷ xs) some_byte h = ap nonempty (span-all_end p (x ∷ xs) h)

pub skip_space-other : (c : ℕ) (cs : List ℕ) → is_space c ≡ false → skip_space (c ∷ cs) ≡ c ∷ cs
unfolding skip_space
skip_space-other c cs h = rw h refl

skip_space-plain :
    (l rest : List ℕ) → 1 ≤ length l → all is_plain l ≡ true → skip_space (l ++ rest) ≡ l ++ rest
skip_space-plain [] rest some_byte h = absurd (omega arith)
skip_space-plain (x ∷ xs) rest some_byte h = skip_space-other x (xs ++ rest) (ground arith)

plain_word : (c : ℕ) → is_plain c ≡ true → not (is_space c) ≡ true
plain_word c h = ground arith

-- `%s` of a word, and a space behind it.
pub scan_word-plain :
    (l rest : List ℕ)
    → 1 ≤ length l
    → all is_plain l ≡ true
    → scan_word (l ++ (b' ' ∷ rest)) ≡ some (l, b' ' ∷ rest)
unfolding scan_word
scan_word-plain l rest some_byte h =
    ap (scan_set (λ c. not (is_space c))) (skip_space-plain l (b' ' ∷ rest) some_byte h)
    ∙ scan_set-all (λ c. not (is_space c)) l rest b' ' some_byte (all-imp is_plain _ plain_word l h)
        refl

-- `%s` of the word that ends the text.
pub scan_word-plain_end :
    (l : List ℕ) → 1 ≤ length l → all is_plain l ≡ true → scan_word l ≡ some (l, [])
unfolding scan_word
scan_word-plain_end l some_byte h =
    ap (scan_set (λ c. not (is_space c)))
      (ap skip_space (sym (append-nil l)) ∙ skip_space-plain l [] some_byte h ∙ append-nil l)
    ∙ scan_set-all_end (λ c. not (is_space c)) l some_byte (all-imp is_plain _ plain_word l h)

pub scan_word-space : (l : List ℕ) → scan_word (b' ' ∷ l) ≡ scan_word l
unfolding scan_word skip_space
scan_word-space l = refl

pub c_str-plain : (l rest : List ℕ) → all is_plain l ≡ true → c_str (l ++ rest) ≡ l ++ c_str rest
c_str-plain [] rest h = refl
c_str-plain (c ∷ cs) rest h =
    let later : all is_plain cs ≡ true = ground arith in
    let other : (c == 0) ≡ false = ground arith in rw (other, c_str-plain cs rest later) refl
