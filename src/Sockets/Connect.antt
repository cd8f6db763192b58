-- ===== src/Sockets/Connect.antt =====
-- The mode in which `Connect` and `Accept` leave a socket.
use Prim.Native.Nat.{bit_and, bit_or}
use my_rtsp_server.Prelude.{
  ℕ, suc, ◌-◌, ◌^◌, ◌<◌, ◌≡◌, refl, ap, ◌∙◌, Bool, true, false, not, ◌&&◌, ◌||◌, Option, some, List,
  [], ◌∷◌, ◌==◌, if◌then◌else◌, Bool-cases, inl, inr, ==_iff, lt→ltb,
}
use my_rtsp_server.Sockets.System.{Call, Kernel, negative}
use my_rtsp_server.Sockets.{
  o_nonblock, f_getfl, f_getfd, f_setfl, f_setfd, positive, timeval_of, address, set_non_block,
  set_write_timeout, set_block, wait_connected, connect,
}

-- Whether the descriptor was closed.
abbrev pub is_closed : ℕ → List Call → Bool
is_closed fd [] = false
is_closed fd (Call.close f ∷ t) = (f == fd) || is_closed fd t
is_closed fd (c ∷ t) = is_closed fd t

-- The flags of a descriptor: what the last `fcntl` with the command `cmd` set, or those at first.
abbrev pub flags_of : ℕ → ℕ → ℕ → List Call → ℕ
flags_of cmd fd first [] = first
flags_of cmd fd first (Call.fcntl f k flags ∷ t) =
    if (f == fd) && (k == cmd) then flags else flags_of cmd fd first t
flags_of cmd fd first (c ∷ t) = flags_of cmd fd first t

-- `fcntl` gives the flags of the descriptor as long as it is open, and sets them.
abbrev pub IsFcntl : Kernel → ℕ → ℕ → ℕ → Type 0
IsFcntl os fd status own =
    (t : List Call)
    → is_closed fd t ≡ false
    → (os.answer t (Call.fcntl fd f_getfl 0) ≡ flags_of f_setfl fd status t)
      × (os.answer t (Call.fcntl fd f_getfd 0) ≡ flags_of f_setfd fd own t)

-- The status flags with `O_NONBLOCK`, and without it.
abbrev pub non_blocking : ℕ → ℕ
non_blocking flags = bit_or flags o_nonblock

abbrev pub blocking : ℕ → ℕ
blocking flags = bit_and flags (2 ^ 32 - 1 - o_nonblock)

-- The calls before `connect` starts.
abbrev pub connecting : Kernel → ℕ → ℕ → List ℕ → ℕ → List Call → List Call
connecting os sockfd flags ip port t =
    Call.connect sockfd (address os ip port)
    ∷ Call.fcntl sockfd f_setfl (non_blocking flags)
    ∷ Call.fcntl sockfd f_getfl 0
    ∷ t

flags_of-set :
    (cmd fd first v : ℕ) (t : List Call) → flags_of cmd fd first (Call.fcntl fd cmd v ∷ t) ≡ v
flags_of-set cmd fd first v t = rw ((==_iff fd fd).1 refl, (==_iff cmd cmd).1 refl) refl

flags_of-get :
    (cmd k fd first v : ℕ) (t : List Call)
    → (k == cmd) ≡ false
    → flags_of cmd fd first (Call.fcntl fd k v ∷ t) ≡ flags_of cmd fd first t
flags_of-get cmd k fd first v t h = rw ((==_iff fd fd).1 refl, h) refl

-- `set_non_block` where the flags are known.
set_non_block_calls :
    (os : Kernel) (fd status own : ℕ) (t : List Call)
    → IsFcntl os fd status own
    → is_closed fd t ≡ false
    → (set_non_block os fd t).1
      ≡ Call.fcntl fd f_setfl (non_blocking (flags_of f_setfl fd status t))
        ∷ Call.fcntl fd f_getfl 0
        ∷ t
unfolding set_non_block
set_non_block_calls os fd status own t documented is_open =
    ap (λ flags. Call.fcntl fd f_setfl (non_blocking flags) ∷ Call.fcntl fd f_getfl 0 ∷ t)
      (documented t is_open).0

set_block_calls :
    (os : Kernel) (fd status own : ℕ) (t : List Call)
    → IsFcntl os fd status own
    → is_closed fd t ≡ false
    → (set_block os fd 0 t).1
      ≡ Call.fcntl fd f_setfl (blocking (flags_of f_setfl fd status t))
        ∷ Call.fcntl fd f_getfl 0
        ∷ t
unfolding set_block set_write_timeout
set_block_calls os fd status own t documented is_open =
    ap (λ flags. Call.fcntl fd f_setfl (blocking flags) ∷ Call.fcntl fd f_getfl 0 ∷ t)
      (documented t is_open).0

-- What `Connect` with a timeout comes to: the result, and the calls.
abbrev waited : Kernel → ℕ → List Call → Option Bool × List Call
waited os fd t = (some (os.left_in_set t fd), (set_block os fd 0 t).1)

connect_waits :
    (os : Kernel) (fd : ℕ) (ip : List ℕ) (port timeout : ℕ) (t : List Call)
    → positive timeout ≡ true
    → fd < 1024
    → let calls = Call.connect fd (address os ip port) ∷ (set_non_block os fd t).1 in
      connect os fd ip port timeout t ≡ (
        if negative (os.answer (set_non_block os fd t).1 (Call.connect fd (address os ip port)))
        then waited os fd (Call.select (suc fd) fd (timeval_of timeout) ∷ calls)
        else (some true, calls))
unfolding connect wait_connected
connect_waits os fd ip port timeout t waits low =
    let asked = os.answer (set_non_block os fd t).1 (Call.connect fd (address os ip port)) in
    elim (Bool-cases (negative asked)) [
      | inl under_way ↦ simp (waits, under_way, lt→ltb fd 1024 low) refl
      | inr done ↦ simp (waits, done) refl
    ]

-- `Connect` with a timeout says that the socket is connected if the system says so at once, or if
-- `select` leaves its bit set, whatever became of the connection; and it leaves the socket
-- blocking only if it had to wait: where the system connects at once, the socket stays
-- non-blocking. The conditions: the descriptor is open, is below 1024 and so fits the set, the
-- timeout is above 0, and `fcntl` does what it documents.
pub connect_lem :
    (os : Kernel) (fd status own : ℕ) (ip : List ℕ) (port timeout : ℕ) (t : List Call)
    → IsFcntl os fd status own
    → is_closed fd t ≡ false
    → positive timeout ≡ true
    → fd < 1024
    → let flags = flags_of f_setfl fd status t in
      let calls = connecting os fd flags ip port t in
      let waiting = Call.select (suc fd) fd (timeval_of timeout) ∷ calls in
      let at_once = not (
        negative (
          os.answer
            (Call.fcntl fd f_setfl (non_blocking flags) ∷ Call.fcntl fd f_getfl 0 ∷ t)
            (Call.connect fd (address os ip port)))) in
      let (result, t') = connect os fd ip port timeout t in
      (result ≡ some (at_once || os.left_in_set waiting fd))
      × (flags_of f_setfl fd status t'
          ≡ (if at_once then non_blocking flags else blocking (non_blocking flags)))
connect_lem os fd status own ip port timeout t documented is_open waits low =
    let flags = flags_of f_setfl fd status t in
    let before = Call.fcntl fd f_setfl (non_blocking flags) ∷ Call.fcntl fd f_getfl 0 ∷ t in
    let asked = negative (os.answer before (Call.connect fd (address os ip port))) in
    let waiting = Call.select (suc fd) fd (timeval_of timeout) ∷ connecting os fd flags ip port t in
    let stands : flags_of f_setfl fd status before ≡ non_blocking flags =
      flags_of-set f_setfl fd status (non_blocking flags) (Call.fcntl fd f_getfl 0 ∷ t) in
    rw
      (
        connect_waits os fd ip port timeout t waits low,
        set_non_block_calls os fd status own t documented is_open,
      )
      (elim (Bool-cases asked) [
        | inl under_way ↦ rw under_way (
          refl,
          ap (flags_of f_setfl fd status)
                (set_block_calls os fd status own waiting documented is_open)
              ∙ flags_of-set f_setfl fd status _ (Call.fcntl fd f_getfl 0 ∷ waiting)
              ∙ ap blocking stands,
        )
        | inr done ↦ rw done (refl, stands)
      ])
