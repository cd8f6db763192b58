-- ===== src/Timer/Events.antt =====
-- The two maps of the timer manager: which ids they hold, how the entries are sorted, and how many
-- are due.
use my_rtsp_server.Prelude.{
  ℕ, suc, ◌≤◌, ◌<◌, ◌≡◌, refl, Bool, true, false, ◌||◌, some, List, [], ◌∷◌, arith, leb, ◌==◌,
  if◌then◌else◌, length, Option-cases, Bool-cases, ap, ◌&&◌, inl, inr,
}
use my_rtsp_server.Timer.{
  before, Timer, Entry, insert_event, erase_event, find_timer, insert_timer, erase_timer,
}

abbrev pub All {ℓ κ} : {A : Type ℓ} → (A → Type κ) → List A → Type κ
All P [] = Unit
All P (x ∷ xs) = P x × All P xs

abbrev pub has_id : ℕ → List Entry → Bool
has_id i [] = false
has_id i (e ∷ es) = (e.id == i) || has_id i es

abbrev pub has_key : ℕ → List (ℕ × Timer) → Bool
has_key i [] = false
has_key i ((k, t) ∷ m) = (k == i) || has_key i m

pub has_id-insert_event :
    (i : ℕ) (e : Entry) (es : List Entry)
    → has_id i (insert_event e es) ≡ ((e.id == i) || has_id i es)
unfolding insert_event
has_id-insert_event i e [] = refl
has_id-insert_event i e (d ∷ ds) = ground (arith, has_id-insert_event i e ds)

pub has_id-erase_event :
    (i stamp id : ℕ) (es : List Entry)
    → (id == i) ≡ false
    → has_id i (erase_event stamp id es) ≡ has_id i es
unfolding erase_event
has_id-erase_event i stamp id [] h = refl
has_id-erase_event i stamp id (d ∷ ds) h = ground (arith, has_id-erase_event i stamp id ds)

pub has_key-erase_timer :
    (i id : ℕ) (m : List (ℕ × Timer))
    → has_key i (erase_timer id m) ≡ (if id == i then false else has_key i m)
unfolding erase_timer
has_key-erase_timer i id [] = ground arith
has_key-erase_timer i id ((k, t) ∷ m) = ground (arith, has_key-erase_timer i id m)

find_timer-has_key :
    (i : ℕ) (m : List (ℕ × Timer)) (t : Timer) → find_timer i m ≡ some t → has_key i m ≡ true
unfolding find_timer
find_timer-has_key i [] t h = cc
find_timer-has_key i ((k, u) ∷ m) t h = ground (arith, find_timer-has_key i m t)

has_key_eq : (i j : ℕ) (m : List (ℕ × Timer)) → i ≡ j → has_key i m ≡ has_key j m
has_key_eq i j m e = ap (λ k. has_key k m) e

pub has_key-insert_timer :
    (i id : ℕ) (t : Timer) (m : List (ℕ × Timer))
    → has_key i (insert_timer id t m) ≡ ((id == i) || has_key i m)
unfolding insert_timer
has_key-insert_timer i id t m = elim (Option-cases (find_timer id m)) [
  | inl e ↦ rw (e, insert_timer)
  | inr (u, e) ↦
      rw (e, insert_timer) (ground (arith, find_timer-has_key id m u e, has_key_eq id i m))
]

-- The time stamps do not fall along the list.
abbrev pub IsSorted : List Entry → Type 0
IsSorted [] = Unit
IsSorted (e ∷ es) = All (λ (d : Entry). e.stamp ≤ d.stamp) es × IsSorted es

pub All-insert_event :
    (P : Entry → Type 0) (e : Entry) (es : List Entry) → P e → All P es → All P (insert_event e es)
unfolding insert_event
All-insert_event P e [] p ps = (p, tt)
All-insert_event P e (d ∷ ds) p ps = elim (Bool-cases (before e d)) [
  | inl b ↦ rw b (p, ps)
  | inr b ↦ rw b (ps.0, All-insert_event P e ds p ps.1)
]

pub All-erase_event :
    (P : Entry → Type 0) (stamp id : ℕ) (es : List Entry)
    → All P es
    → All P (erase_event stamp id es)
unfolding erase_event
All-erase_event P stamp id [] ps = tt
All-erase_event P stamp id (d ∷ ds) ps = elim (Bool-cases ((d.stamp == stamp) && (d.id == id))) [
  | inl b ↦ rw b (All-erase_event P stamp id ds ps.1)
  | inr b ↦ rw b (ps.0, All-erase_event P stamp id ds ps.1)
]

All-mono :
    (P Q : Entry → Type 0) (es : List Entry) → ((d : Entry) → P d → Q d) → All P es → All Q es
All-mono P Q [] f ps = tt
All-mono P Q (d ∷ ds) f ps = (f d ps.0, All-mono P Q ds f ps.1)

pub IsSorted-insert_event :
    (e : Entry) (es : List Entry) → IsSorted es → IsSorted (insert_event e es)
unfolding insert_event
IsSorted-insert_event e [] s = (tt, tt)
IsSorted-insert_event e (d ∷ ds) s = elim (Bool-cases (before e d)) [
  | inl b ↦ rw b (
    (
      ground arith,
      All-mono (λ x. d.stamp ≤ x.stamp) (λ x. e.stamp ≤ x.stamp) ds (λ x h. ground arith) s.0,
    ),
    s,
  )
  | inr b ↦ rw b (
    All-insert_event (λ x. d.stamp ≤ x.stamp) e ds (ground arith) s.0,
    IsSorted-insert_event e ds s.1,
  )
]

pub IsSorted-erase_event :
    (stamp id : ℕ) (es : List Entry) → IsSorted es → IsSorted (erase_event stamp id es)
unfolding erase_event
IsSorted-erase_event stamp id [] s = tt
IsSorted-erase_event stamp id (d ∷ ds) s = elim (Bool-cases ((d.stamp == stamp) && (d.id == id))) [
  | inl b ↦ rw b (IsSorted-erase_event stamp id ds s.1)
  | inr b ↦ rw b (
    All-erase_event (λ x. d.stamp ≤ x.stamp) stamp id ds s.0,
    IsSorted-erase_event stamp id ds s.1,
  )
]

-- How many entries are due.
abbrev pub due : ℕ → List Entry → ℕ
due now [] = 0
due now (e ∷ es) = if leb e.stamp now then suc (due now es) else due now es

-- Behind an entry that is not due, none is.
pub due_none :
    (now : ℕ) (e : Entry) (es : List Entry)
    → IsSorted (e ∷ es)
    → now < e.stamp
    → due now (e ∷ es) ≡ 0
due_none now e [] s h = ground arith
due_none now e (d ∷ ds) s h = ground (arith, due_none now d ds s.1)

pub due-le-length : (now : ℕ) (es : List Entry) → due now es ≤ length es
due-le-length now [] = omega arith
due-le-length now (e ∷ es) = ground (arith, due-le-length now es)

pub due-insert_event :
    (now : ℕ) (e : Entry) (es : List Entry)
    → now < e.stamp
    → due now (insert_event e es) ≡ due now es
unfolding insert_event
due-insert_event now e [] h = ground arith
due-insert_event now e (d ∷ ds) h = ground (arith, due-insert_event now e ds)
