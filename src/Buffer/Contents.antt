-- ===== src/Buffer/Contents.antt =====
-- The buffer as a queue of bytes: its invariant, and what each operation does to the bytes that
-- can be read.
use my_rtsp_server.Prelude.{
  if◌then◌else◌, ℕ, ◌+◌, ◌-◌, ◌≤◌, ◌<◌, ◌^◌, ◌≡◌, refl, ap, ◌∙◌, Option, some, List, [], ◌++◌, ltb,
  arith, inl, inr, Bool-cases, le→leb, Returns, Returns->>=, add32, length, take, drop, overwrite,
  length-take, length-drop, length-slice, length-overwrite, take_all, drop_all, take-append-drop,
  slice-overwrite, slice-take, drop-slice, append_assoc, subst,
}
use my_rtsp_server.Buffer.{
  Buffer, new, ini_buffer_size, readable_bytes, writable_bytes, peek, has_written, un_write,
  retrieve_all, retrieve, retrieve_until, grow, shift, make_space, ensure_writable_bytes, append,
  received, read_capacity, read, write,
}

pub record IsValid (b : Buffer) : Type 0 where
  pub sized : length b.block ≡ b.buffer_size
  pub ordered : b.read_index ≤ b.write_index
  pub within : b.write_index ≤ b.buffer_size
  pub small : b.buffer_size < 2 ^ 32

-- What realloc promises of a block that it moves: the new size, and the old bytes that fit.
pub record IsRealloc (realloc : List ℕ → ℕ → List ℕ) : Type 0 where
  pub resized : (d : List ℕ) (n : ℕ) → length (realloc d n) ≡ n
  pub kept : (d : List ℕ) (n m : ℕ) → m ≤ n → m ≤ length d → take m (realloc d n) ≡ take m d

pub new-IsValid :
    (block : List ℕ)
    → length block ≡ ini_buffer_size
    → IsValid (new block) × (peek (new block) ≡ [])
unfolding new
new-IsValid block h = (omega arith, refl)

pub length-peek : {b : Buffer} → IsValid b → length (peek b) ≡ readable_bytes b
length-peek {b} v = omega (arith, length-slice b.read_index (b.write_index - b.read_index) b.block)

abbrev pub Holds : List ℕ → Buffer → Type 0
Holds q b = IsValid b × (peek b ≡ q)

abbrev pub HoldsAfter : List ℕ → ℕ → Option ℕ × Buffer → Type 0
HoldsAfter q n (r, b) = (r ≡ some n) × IsValid b × (peek b ≡ q)

-- Taking `len` bytes out of a valid buffer, no more than can be read, drops them from the front
-- and leaves a valid buffer.
pub retrieve_lem :
    {b : Buffer} (len : ℕ)
    → IsValid b
    → len ≤ length (peek b)
    → Returns (Holds (drop len (peek b))) (retrieve len b)
unfolding retrieve
retrieve_lem {b} len v h = ground (
  arith,
  length-peek v,
  drop-slice len b.read_index (b.write_index - b.read_index) b.block {j = add32 b.read_index len}
      {m = b.write_index - add32 b.read_index len},
  length-drop len (peek b),
  drop_all len (peek b),
)

-- `RetrieveUntil(end)` drops the bytes before `end`, which stands within the readable bytes.
pub retrieve_until_lem :
    {b : Buffer} (end : ℕ)
    → IsValid b
    → end ≤ length (peek b)
    → Returns (Holds (drop end (peek b))) (retrieve_until end b)
unfolding retrieve_until
retrieve_until_lem {b} end v h =
    rw (le→leb end (b.write_index - b.read_index) (omega (arith, length-peek v)))
      (retrieve_lem end v h)

pub retrieve_all-Holds : {b : Buffer} → IsValid b → Holds [] (retrieve_all b)
unfolding retrieve_all
retrieve_all-Holds v = (omega arith, refl)

-- `UnWrite` takes `len` bytes back from the end of a valid buffer that has so many to read, and
-- leaves a valid buffer.
pub un_write_lem :
    {b : Buffer} (len : ℕ)
    → IsValid b
    → len ≤ length (peek b)
    → Returns (Holds (take (length (peek b) - len) (peek b))) (un_write len b)
unfolding un_write
un_write_lem {b} len v h = ground (
  arith,
  length-peek v,
  slice-take 0 (length (peek b) - len) (b.write_index - b.read_index) (drop b.read_index b.block),
)

-- Bytes stored from the write index on extend what can be read.
store-Holds :
    {b : Buffer} (src : List ℕ) (w : ℕ)
    → IsValid b
    → w ≡ b.write_index + length src
    → w ≤ b.buffer_size
    → Holds
        (peek b ++ src)
        (record b { block = overwrite b.block b.write_index src; write_index = w })
store-Holds {b} src w v e h = ground (
  arith,
  length-overwrite b.block b.write_index src,
  slice-overwrite b.block b.read_index (b.write_index - b.read_index) src {p = b.write_index}
      {m = w - b.read_index},
)

module _ (realloc : List ℕ → ℕ → List ℕ) (R : IsRealloc realloc) where
  abbrev HasRoom : ℕ → List ℕ → Buffer → Type 0
  HasRoom len q b = IsValid b × (peek b ≡ q) × (len + b.write_index ≤ b.buffer_size)

  shift-HasRoom :
      {b : Buffer} (len : ℕ)
      → IsValid b
      → len + b.write_index ≤ b.buffer_size + b.read_index
      → Returns (HasRoom len (peek b)) (shift realloc b)
  unfolding shift
  shift-HasRoom {b} len v h = ground (
    arith,
    length-peek v,
    length-overwrite b.block 0 (peek b),
    slice-overwrite b.block 0 0 (peek b) {p = 0} {m = length (peek b)},
  )

  grow-HasRoom :
      {b : Buffer} (len : ℕ)
      → IsValid b
      → b.write_index + len < 2 ^ 32
      → b.buffer_size ≤ b.write_index + len
      → HasRoom len (peek b) (grow realloc len b)
  unfolding grow
  grow-HasRoom {b} len v h k = ground (
    arith,
    R.resized b.block (b.write_index + len),
    R.kept b.block (b.write_index + len) b.write_index,
    slice-take b.read_index (b.write_index - b.read_index) b.write_index b.block,
    slice-take b.read_index (b.write_index - b.read_index) b.write_index
        (realloc b.block (b.write_index + len)),
  )

  make_space-HasRoom :
      {b : Buffer} (len : ℕ)
      → IsValid b
      → b.write_index + len < 2 ^ 32
      → Returns (HasRoom len (peek b)) (make_space realloc len b)
  unfolding make_space
  make_space-HasRoom {b} len v h =
      elim (Bool-cases (ltb (add32 (writable_bytes b) b.read_index) len)) [
        | inl e ↦ rw e (grow-HasRoom len v h (ground arith))
        | inr e ↦ rw e (shift-HasRoom len v (ground arith))
      ]

  ensure_writable_bytes-HasRoom :
      {b : Buffer} (len : ℕ)
      → IsValid b
      → b.write_index + len < 2 ^ 32
      → Returns (HasRoom len (peek b)) (ensure_writable_bytes realloc len b)
  unfolding ensure_writable_bytes
  ensure_writable_bytes-HasRoom {b} len v h =
      Returns->>= (HasRoom len (peek b)) (HasRoom len (peek b)) _ _ room
        λ b' r. rw (le→leb len (writable_bytes b') (omega arith)) r
    where
      room :
          Returns
            (HasRoom len (peek b))
            (if ltb (writable_bytes b) len then make_space realloc len b else some b)
      room = elim (Bool-cases (ltb (writable_bytes b) len)) [
        | inl e ↦ rw e (make_space-HasRoom len v h)
        | inr e ↦ rw e (v, refl, ground arith)
      ]

  -- Appended bytes stand behind those that could be read, in a valid buffer, whether the block is
  -- moved up, enlarged or left: no assert stops the call. The conditions: the buffer is valid,
  -- `realloc` does what it documents, and the write index plus the bytes stays below 2 ^ 32.
  pub append_lem :
      {b : Buffer} (src : List ℕ)
      → IsValid b
      → b.write_index + length src < 2 ^ 32
      → Returns (Holds (peek b ++ src)) (append realloc src b)
  unfolding append has_written
  append_lem {b} src v h =
      Returns->>= (HasRoom (length src) (peek b)) (Holds (peek b ++ src)) _ _
        (ensure_writable_bytes-HasRoom (length src) v h)
        λ b' (r : HasRoom (length src) (peek b) b').
          rw (le→leb (length src) (writable_bytes b') (omega arith)) (
            rw (← r.1)
              (store-Holds src (add32 b'.write_index (length src)) r.0 (omega arith) (omega arith)))

  -- The bytes that `readv` delivers, no more than the two vectors hold, stand behind those that
  -- could be read, and their number is returned; the buffer is valid again. The conditions: the
  -- buffer is valid, `realloc` does what it documents, and the block's size plus the bytes stays
  -- below 2 ^ 32.
  pub read_lem :
      {b : Buffer} (bytes : List ℕ)
      → IsValid b
      → length bytes ≤ read_capacity b
      → b.buffer_size + length bytes < 2 ^ 32
      → Returns (HoldsAfter (peek b ++ bytes) (length bytes)) (read realloc (received bytes) b)
  unfolding read
  read_lem {b} bytes v h k = elim (Bool-cases (ltb (length bytes) (writable_bytes b))) [
    | inl e ↦
        rw (e, take_all (writable_bytes b) bytes (ground arith))
          (let held =
              store-Holds bytes (add32 b.write_index (length bytes)) v (ground arith)
                (ground arith) in
            (refl, held.0, held.1))
    | inr e ↦ rw e (
        Returns->>= (Holds (peek b ++ bytes)) (HoldsAfter (peek b ++ bytes) (length bytes)) _ _
          (overflow (ground arith)) λ b' r. (refl, r.0, r.1))
  ]
    where
      stored : Buffer
      stored = record b {
        block = overwrite b.block b.write_index (take (writable_bytes b) bytes);
        write_index = b.buffer_size;
      }

      overflow :
          writable_bytes b ≤ length bytes
          → Returns
              (Holds (peek b ++ bytes))
              (append realloc (drop (writable_bytes b) bytes) stored)
      overflow full =
          let held : Holds (peek b ++ take (writable_bytes b) bytes) stored =
            store-Holds (take (writable_bytes b) bytes) b.buffer_size v
              (omega (arith, length-take (writable_bytes b) bytes)) (omega arith) in
          let whole : (peek b ++ take (writable_bytes b) bytes) ++ drop (writable_bytes b) bytes
              ≡ peek b ++ bytes =
            append_assoc (peek b) _ _
            ∙ ap (◌++◌ (peek b)) (take-append-drop (writable_bytes b) bytes) in
          subst (λ q. Returns (Holds q) (append realloc (drop (writable_bytes b) bytes) stored))
            (ap (λ q. q ++ drop (writable_bytes b) bytes) held.1 ∙ whole)
            (append_lem (drop (writable_bytes b) bytes) held.0
              (omega (arith, length-drop (writable_bytes b) bytes)))

pub write_lem : (b : Buffer) → write b ≡ peek b
unfolding write
write_lem b = refl

pub write_index-retrieve_all : (b : Buffer) → (retrieve_all b).write_index ≡ 0
unfolding retrieve_all
write_index-retrieve_all b = refl
