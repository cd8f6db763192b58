-- ===== src/Sockets/System.antt =====
-- What src/net/socket_ops.cpp asks of the system: the calls, with their arguments, and a program
-- that makes calls. A descriptor and what a call returns are the bit patterns of `int32_t`. What
-- the system answers to a call, and what it stores, depends on the calls before it, the last one
-- first.
use my_rtsp_server.Prelude.{ℕ, ◌^◌, Bool, List, ◌∷◌, leb}

-- `sockaddr_in`; the address and the port in the order of the network.
pub record SockAddr : Type 0 where
  pub family : ℕ
  pub addr : ℕ
  pub port : ℕ

-- The value of a socket's option.
pub data OptVal : Type 0 where
  int : ℕ → OptVal
  timeval : ℕ → ℕ → OptVal

pub data Call : Type 0 where
  socket : ℕ → ℕ → ℕ → Call
  bind : ℕ → SockAddr → Call
  listen : ℕ → ℕ → Call
  accept : ℕ → Call
  connect : ℕ → SockAddr → Call
  select : ℕ → ℕ → OptVal → Call
  readv : ℕ → List ℕ → Call
  write : ℕ → List ℕ → Call
  sendto : ℕ → List ℕ → SockAddr → Call
  fcntl : ℕ → ℕ → ℕ → Call
  setsockopt : ℕ → ℕ → ℕ → OptVal → Call
  getpeername : ℕ → Call
  ioctl : ℕ → Call
  close : ℕ → Call

-- An entry of what `SIOCGIFCONF` stores. `ifr_flags` and the family of `ifr_addr` are the same
-- bytes.
pub record Ifreq : Type 0 where
  pub name : List ℕ
  pub family : ℕ
  pub addr : ℕ

-- `answer` is what a call returns, `peer` what `getpeername` stores, `interfaces` what `ioctl`
-- does, `left_in_set` whether `select` leaves the descriptor's bit. `inet_addr` and `inet_ntoa` are
-- the C library's.
pub record Kernel : Type 0 where
  pub answer : List Call → Call → ℕ
  pub peer : List Call → ℕ → SockAddr
  pub interfaces : List Call → List Ifreq
  pub left_in_set : List Call → ℕ → Bool
  pub inet_addr : List ℕ → ℕ
  pub inet_ntoa : ℕ → List ℕ

abbrev pub Sys : Type 0 → Type 0
Sys A = List Call → A × List Call

abbrev pub pure : {A : Type 0} → A → Sys A
pure a t = (a, t)

infixl 5 ◌>>=◌ ◌>>◌
abbrev pub ◌>>=◌ : {A B : Type 0} → Sys A → (A → Sys B) → Sys B
◌>>=◌ m f t = let (a, t') = m t in f a t'

abbrev pub ◌>>◌ : {A B : Type 0} → Sys A → Sys B → Sys B
m >> k = m >>= λ _. k

abbrev pub call : Kernel → Call → Sys ℕ
call os c t = (os.answer t c, c ∷ t)

-- `r < 0`, and `0 < r`.
abbrev pub negative : ℕ → Bool
negative r = leb (2 ^ 31) r
