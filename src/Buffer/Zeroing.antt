-- ===== src/Buffer/Zeroing.antt =====
-- An instance of what is asked of `realloc`.
use my_rtsp_server.Prelude.{
  ℕ, zero, suc, ◌-◌, ◌≤◌, ◌≡◌, refl, ap, List, [], ◌∷◌, ◌++◌, arith, length, take, replicate,
  length-append, length-take, length-replicate,
}
use my_rtsp_server.Buffer.Contents.{IsRealloc}

-- A realloc that copies the old block and fills up with zeros.
abbrev pub zeroing_realloc : List ℕ → ℕ → List ℕ
zeroing_realloc d n = take n d ++ replicate (n - length d) 0

take-zeroing : (d xs : List ℕ) (n m : ℕ) → m ≤ n → m ≤ length d → take m (take n d ++ xs) ≡ take m d
take-zeroing d xs n zero h k = refl
take-zeroing [] xs n (suc m) h k = absurd (omega arith)
take-zeroing (x ∷ d) xs zero (suc m) h k = absurd (omega arith)
take-zeroing (x ∷ d) xs (suc n) (suc m) h k =
    ap (◌∷◌ x) (take-zeroing d xs n m (omega arith) (omega arith))

pub zeroing_realloc-IsRealloc : IsRealloc zeroing_realloc
zeroing_realloc-IsRealloc = record {
  resized = λ d n. omega (
    arith,
    length-append (take n d) (replicate (n - length d) 0),
    length-take n d,
    length-replicate {A = ℕ} (n - length d) 0,
  );
  kept = λ d n m h k. take-zeroing d (replicate (n - length d) 0) n m h k;
}
