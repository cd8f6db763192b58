-- ===== src/Buffer.antt =====
-- include/net/buffer.h and src/net/buffer.cpp: the byte buffer of a connection.
-- A call that an `assert` stops is `none`. `realloc` is the C library's: a parameter, with its
-- documented behaviour in `IsRealloc`. The block's bytes are a list as long as `m_buffer_size_`.
pub mod Search
pub mod Contents
pub mod Zeroing
mod Tests
use my_rtsp_server.Prelude.{
  ℕ, suc, ◌+◌, ◌-◌, ◌≤◌, ◌<◌, ◌^◌, ◌≡◌, Bool, Option, none, some, List, [], ◌∷◌, ◌++◌, min, ltb,
  leb, ◌==◌, if◌then◌else◌, ◌>>=◌, ◌>>◌, assert, add32, sub32, u32_mod, length, take, drop, slice,
  overwrite,
}

pub record Buffer : Type 0 where
  pub block : List ℕ
  pub buffer_size : ℕ
  pub read_index : ℕ
  pub write_index : ℕ

abbrev pub ini_buffer_size : ℕ
ini_buffer_size = 1024

-- What malloc hands out is not initialised: `block` stands for it.
pub new : List ℕ → Buffer
new block = record { block = block; buffer_size = ini_buffer_size; read_index = 0; write_index = 0 }

abbrev pub readable_bytes : Buffer → ℕ
readable_bytes b = sub32 b.write_index b.read_index

abbrev pub writable_bytes : Buffer → ℕ
writable_bytes b = sub32 b.buffer_size b.write_index

abbrev pub prependable_bytes : Buffer → ℕ
prependable_bytes b = b.read_index

-- What stands between `Peek()` and `BeginWrite()`.
abbrev pub peek : Buffer → List ℕ
peek b = slice b.read_index (b.write_index - b.read_index) b.block

pub has_written : ℕ → Buffer → Option Buffer
has_written len b = do
  assert (leb len (writable_bytes b))
  some (record b { write_index = add32 b.write_index len })

pub un_write : ℕ → Buffer → Option Buffer
un_write len b = do
  assert (leb len (readable_bytes b))
  some (record b { write_index = sub32 b.write_index len })

pub retrieve_all : Buffer → Buffer
retrieve_all b = record b { read_index = 0; write_index = 0 }

pub retrieve : ℕ → Buffer → Option Buffer
unfolding retrieve_all
retrieve len b = do
  assert (leb len (readable_bytes b))
  some (
      if ltb len (readable_bytes b)
      then record b { read_index = add32 b.read_index len }
      else retrieve_all b)

-- The argument is the distance of `end` from `Peek()`; the first assert says that it is not
-- negative.
pub retrieve_until : ℕ → Buffer → Option Buffer
unfolding retrieve
retrieve_until end b = do assert (leb end (b.write_index - b.read_index)); retrieve end b

module _ (realloc : List ℕ → ℕ → List ℕ) where
  grow : ℕ → Buffer → Buffer
  grow len b =
      let size = add32 b.write_index len in
      record b { block = realloc b.block size; buffer_size = size }

  shift : Buffer → Option Buffer
  shift b = do
    let readable = readable_bytes b
    let moved = record b {
      block = overwrite b.block 0 (peek b);
      read_index = 0;
      write_index = add32 0 readable;
    }
    assert (readable == readable_bytes moved)
    some moved

  pub make_space : ℕ → Buffer → Option Buffer
  unfolding grow shift
  make_space len b =
      if ltb (add32 (writable_bytes b) (prependable_bytes b)) len
      then some (grow len b)
      else shift b

  pub ensure_writable_bytes : ℕ → Buffer → Option Buffer
  unfolding make_space
  ensure_writable_bytes len b = do
    b' ← (if ltb (writable_bytes b) len then make_space len b else some b)
    assert (leb len (writable_bytes b'))
    some b'

  -- `len` is the length of `src`.
  pub append : List ℕ → Buffer → Option Buffer
  unfolding ensure_writable_bytes has_written
  append src b = do
    b' ← ensure_writable_bytes (length src) b
    has_written (length src) (record b' { block = overwrite b'.block b'.write_index src })

-- What `readv` does with the two vectors: an error, or the bytes that it stored.
pub data ReadvResult : Type 0 where
  failed : ReadvResult
  received : List ℕ → ReadvResult

abbrev pub extrabuf_size : ℕ
extrabuf_size = 65536

-- The bytes that the vectors hold: one vector, or two where the buffer has less room than
-- `extrabuf`.
abbrev pub read_capacity : Buffer → ℕ
read_capacity b =
    if ltb (writable_bytes b) extrabuf_size
    then writable_bytes b + extrabuf_size
    else writable_bytes b

-- `Read` returns -1 (`none`) or the number of bytes.
module _ (realloc : List ℕ → ℕ → List ℕ) where
  pub read : ReadvResult → Buffer → Option (Option ℕ × Buffer)
  unfolding append
  read failed b = some (none, b)
  read (received bytes) b =
      let writable = writable_bytes b in
      let n = length bytes in
      let stored = overwrite b.block b.write_index (take writable bytes) in
      if ltb n writable
      then some (some n, record b { block = stored; write_index = add32 b.write_index n })
      else (do
        b' ←
            append realloc (drop writable bytes)
              (record b { block = stored; write_index = b.buffer_size })
        some (some n, b'))

-- `Write` hands the readable bytes to the socket and takes none of them out.
pub write : Buffer → List ℕ
write b = peek b
