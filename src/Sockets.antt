-- ===== src/Sockets.antt =====
-- src/net/socket_ops.cpp and include/net/tcp_socket.h: the calls of the system that the program
-- makes for its sockets. The constants are those of Linux.
pub mod System
pub mod LocalIp
pub mod Connect
pub mod Tests
use Prim.Native.Nat.{bit_and, bit_or}
use my_rtsp_server.Prelude.{
  ℕ, zero, suc, ◌+◌, ◌-◌, ◌*◌, ◌/◌, ◌%◌, ◌^◌, Bool, true, false, not, ◌&&◌, Option, none, some,
  List, [], ◌∷◌, ltb, ◌==◌, if◌then◌else◌, length,
}
use my_rtsp_server.Prelude.Text.{codes, bytes_eq}
use my_rtsp_server.Sockets.System.{
  SockAddr, OptVal, Call, Ifreq, Kernel, Sys, pure, ◌>>=◌, ◌>>◌, call, negative,
}

abbrev pub af_inet : ℕ
af_inet = 2

abbrev pub o_nonblock : ℕ
o_nonblock = 0x800

abbrev pub fd_cloexec : ℕ
fd_cloexec = 1

abbrev pub f_getfd : ℕ
f_getfd = 1

abbrev pub f_setfd : ℕ
f_setfd = 2

abbrev pub f_getfl : ℕ
f_getfl = 3

abbrev pub f_setfl : ℕ
f_setfl = 4

-- `SOCK_STREAM`, `SOCK_DGRAM`, and the flags `SOCK_NONBLOCK | SOCK_CLOEXEC`.
abbrev sock_stream : ℕ
sock_stream = 1

abbrev sock_dgram : ℕ
sock_dgram = 2

abbrev sock_flags : ℕ
sock_flags = 0x800 + 0x80000

abbrev ipproto_tcp : ℕ
ipproto_tcp = 6

abbrev sol_socket : ℕ
sol_socket = 1

-- `htons`, and `ntohs`.
pub htons : ℕ → ℕ
htons port = port % 256 * 256 + port / 256 % 256

-- An `int32_t` that is above 0.
abbrev pub positive : ℕ → Bool
positive n = not (n == 0) && not (negative n)

-- What milliseconds come to in a `timeval`.
abbrev pub timeval_of : ℕ → OptVal
timeval_of ms = OptVal.timeval (ms / 1000) (ms % 1000 * 1000)

module _ (os : Kernel) where
  unfoldable pub create_tcp_sock : Sys ℕ
  create_tcp_sock = call os (Call.socket af_inet (sock_stream + sock_flags) ipproto_tcp)

  unfoldable pub create_udp_sock : Sys ℕ
  create_udp_sock = call os (Call.socket af_inet (sock_dgram + sock_flags) 0)

  unfoldable pub address : List ℕ → ℕ → SockAddr
  unfolding htons
  address ip port = record { family = af_inet; addr = os.inet_addr ip; port = htons port }

  unfoldable pub bind : ℕ → List ℕ → ℕ → Sys Bool
  bind sockfd ip port = do r ← call os (Call.bind sockfd (address ip port)); pure (not (negative r))

  unfoldable pub listen : ℕ → ℕ → Sys Bool
  listen sockfd backlog = do r ← call os (Call.listen sockfd backlog); pure (not (negative r))

  unfoldable pub readv : ℕ → List ℕ → Sys ℕ
  readv sockfd sizes = call os (Call.readv sockfd sizes)

  unfoldable pub write : ℕ → List ℕ → Sys ℕ
  write sockfd buf = call os (Call.write sockfd buf)

  unfoldable pub sendto : ℕ → List ℕ → SockAddr → Sys ℕ
  sendto sockfd buf dest_addr = call os (Call.sendto sockfd buf dest_addr)

  unfoldable pub set_non_block : ℕ → Sys (Unit {0})
  set_non_block sockfd = do
    flags ← call os (Call.fcntl sockfd f_getfl 0)
    call os (Call.fcntl sockfd f_setfl (bit_or flags o_nonblock))
    pure tt

  unfoldable pub set_write_timeout : ℕ → ℕ → Sys (Unit {0})
  set_write_timeout sockfd write_timeout =
      if positive write_timeout
      then (do call os (Call.setsockopt sockfd sol_socket 21 (timeval_of write_timeout)); pure tt)
      else pure tt

  unfoldable pub set_block : ℕ → ℕ → Sys (Unit {0})
  unfolding set_write_timeout
  set_block sockfd write_timeout = do
    flags ← call os (Call.fcntl sockfd f_getfl 0)
    call os (Call.fcntl sockfd f_setfl (bit_and flags (2 ^ 32 - 1 - o_nonblock)))
    set_write_timeout sockfd write_timeout

  abbrev set_option : ℕ → ℕ → ℕ → ℕ → Sys (Unit {0})
  set_option sockfd level name value = do
    call os (Call.setsockopt sockfd level name (OptVal.int value))
    pure tt

  unfoldable pub set_reuse_addr : ℕ → ℕ → Sys (Unit {0})
  set_reuse_addr sockfd on = set_option sockfd sol_socket 2 (if on == 0 then 0 else 1)

  unfoldable pub set_reuse_port : ℕ → Sys (Unit {0})
  set_reuse_port sockfd = set_option sockfd sol_socket 15 1

  unfoldable pub set_non_block_and_close_on_exec : ℕ → Sys (Unit {0})
  set_non_block_and_close_on_exec sockfd = do
    flags ← call os (Call.fcntl sockfd f_getfl 0)
    call os (Call.fcntl sockfd f_setfl (bit_or flags o_nonblock))
    more ← call os (Call.fcntl sockfd f_getfd 0)
    call os (Call.fcntl sockfd f_setfd (bit_or more fd_cloexec))
    pure tt

  -- The name of the option is `MSG_NOSIGNAL`.
  unfoldable pub ignore_sig_pipe_on_socket : ℕ → Sys (Unit {0})
  ignore_sig_pipe_on_socket sockfd = set_option sockfd sol_socket 0x4000 1

  unfoldable pub set_no_delay : ℕ → Sys (Unit {0})
  set_no_delay sockfd = set_option sockfd ipproto_tcp 1 1

  unfoldable pub set_keep_alive : ℕ → Sys (Unit {0})
  set_keep_alive sockfd = set_option sockfd sol_socket 9 1

  unfoldable pub set_send_buf_size : ℕ → ℕ → Sys (Unit {0})
  set_send_buf_size sockfd size = set_option sockfd sol_socket 7 size

  unfoldable pub set_recv_buf_size : ℕ → ℕ → Sys (Unit {0})
  set_recv_buf_size sockfd size = set_option sockfd sol_socket 8 size

  -- What `accept` returns is not looked at.
  unfoldable pub accept : ℕ → Sys ℕ
  unfolding set_non_block_and_close_on_exec ignore_sig_pipe_on_socket
  accept sockfd = do
    connfd ← call os (Call.accept sockfd)
    set_non_block_and_close_on_exec connfd
    ignore_sig_pipe_on_socket connfd
    pure connfd

  -- The peer's address where the call succeeds.
  unfoldable pub get_peer_addr : ℕ → Sys (Option SockAddr)
  get_peer_addr sockfd t =
      let (r, t') = call os (Call.getpeername sockfd) t in
      (if r == 0 then some (os.peer t sockfd) else none, t')

  unfoldable pub get_peer_ip : ℕ → Sys (List ℕ)
  unfolding get_peer_addr
  get_peer_ip sockfd = do
    peer ← get_peer_addr sockfd
    pure (elim peer [ some a ↦ os.inet_ntoa a.addr | none ↦ codes "0.0.0.0" ])

  -- The bit pattern of the `int16_t`.
  unfoldable pub get_peer_port : ℕ → Sys ℕ
  unfolding get_peer_addr htons
  get_peer_port sockfd = do
    peer ← get_peer_addr sockfd
    pure (elim peer [ some a ↦ htons a.port | none ↦ 0 ])

  unfoldable pub close : ℕ → Sys (Unit {0})
  close sockfd = do call os (Call.close sockfd); pure tt

  -- The wait for a connection that is under way. `none`: `FD_SET` writes outside of the set.
  unfoldable pub wait_connected : ℕ → ℕ → Sys (Option Bool)
  unfolding set_block
  wait_connected sockfd timeout =
      if ltb sockfd 1024
      then (do
        call os (Call.select (suc sockfd) sockfd (timeval_of timeout))
        is_connected ← (λ t. (os.left_in_set t sockfd, t))
        set_block sockfd 0
        pure (some is_connected))
      else pure none

  unfoldable pub connect : ℕ → List ℕ → ℕ → ℕ → Sys (Option Bool)
  unfolding set_non_block wait_connected
  connect sockfd ip port timeout = do
    if positive timeout then set_non_block sockfd else pure tt
    r ← call os (Call.connect sockfd (address ip port))
    if negative r
        then (if positive timeout then wait_connected sockfd timeout else pure (some false))
        else pure (some true)

  -- The loop over the entries: `ifrs` are those from `ifr` on, which goes on only from an entry of
  -- the right family. `none` is a read behind them.
  unfoldable pub local_ip_loop : ℕ → List Ifreq → Option (List ℕ)
  local_ip_loop zero ifrs = some (codes "0.0.0.0")
  local_ip_loop (suc i) [] = none
  local_ip_loop (suc i) (ifr ∷ ifrs) =
      let onward = local_ip_loop i ifrs in
      let again = local_ip_loop i (ifr ∷ ifrs) in
      if ifr.family == af_inet
      then (if not (bytes_eq ifr.name (codes "lo")) then some (os.inet_ntoa ifr.addr) else onward)
      else again

  unfoldable pub get_local_ip : Sys (Option (List ℕ))
  get_local_ip = do
    sockfd ← call os (Call.socket af_inet sock_dgram 0)
    if negative sockfd then (do close sockfd; pure (some (codes "0.0.0.0"))) else (do
      r ← call os (Call.ioctl sockfd)
      if negative r
          then (do close sockfd; pure (some (codes "0.0.0.0")))
          else (λ t. (local_ip_loop (length (os.interfaces t)) (os.interfaces t), t)))
