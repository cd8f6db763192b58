-- ===== src/Sockets/LocalIp.antt =====
-- Which address `GetLocalIp` gives, and what it does with its socket.
use my_rtsp_server.Prelude.{
  ℕ, zero, suc, ◌≡◌, refl, ap, false, some, List, [], ◌∷◌, ◌==◌, if◌then◌else◌, length, Bool-cases,
  inl, inr,
}
use my_rtsp_server.Prelude.Text.{codes, bytes_eq}
use my_rtsp_server.Sockets.System.{Call, Ifreq, Kernel, negative}
use my_rtsp_server.Sockets.{af_inet, close, local_ip_loop, get_local_ip}

-- The entries before the first one of another family.
abbrev pub inet_front : List Ifreq → List Ifreq
inet_front [] = []
inet_front (ifr ∷ ifrs) = if ifr.family == af_inet then ifr ∷ inet_front ifrs else []

-- The address of the first entry that is not the loopback interface.
abbrev pub first_address : Kernel → List Ifreq → List ℕ
first_address os [] = codes "0.0.0.0"
first_address os (ifr ∷ ifrs) =
    if bytes_eq ifr.name (codes "lo") then first_address os ifrs else os.inet_ntoa ifr.addr

-- An entry of another family is looked at again and again.
local_ip_loop-other :
    (os : Kernel) (i : ℕ) (ifr : Ifreq) (ifrs : List Ifreq)
    → (ifr.family == af_inet) ≡ false
    → local_ip_loop os i (ifr ∷ ifrs) ≡ some (codes "0.0.0.0")
unfolding local_ip_loop
local_ip_loop-other os zero ifr ifrs h = refl
local_ip_loop-other os (suc i) ifr ifrs h = rw h (local_ip_loop-other os i ifr ifrs h)

local_ip_loop_lem :
    (os : Kernel) (ifrs : List Ifreq)
    → local_ip_loop os (length ifrs) ifrs ≡ some (first_address os (inet_front ifrs))
unfolding local_ip_loop
local_ip_loop_lem os [] = refl
local_ip_loop_lem os (ifr ∷ ifrs) = elim (Bool-cases (ifr.family == af_inet)) [
  | inr other ↦ rw other (local_ip_loop-other os (length ifrs) ifr ifrs other)
  | inl same ↦ elim (Bool-cases (bytes_eq ifr.name (codes "lo"))) [
    | inl lo ↦ rw (same, lo) (local_ip_loop_lem os ifrs)
    | inr named ↦ rw (same, named) refl
  ]
]

-- The socket that it asks.
abbrev pub asking_socket : Call
asking_socket = Call.socket af_inet 2 0

-- `GetLocalIp` gives the address of the first interface but the loopback one that stands before
-- any entry of another family, and "0.0.0.0" where there is none; its loop ends without a read
-- behind the entries; and the socket that it opened for the question is not closed. The condition:
-- the socket could be made, and the system answers.
pub get_local_ip_lem :
    (os : Kernel) (t : List Call) (fd : ℕ)
    → os.answer t asking_socket ≡ fd
    → negative fd ≡ false
    → negative (os.answer (asking_socket ∷ t) (Call.ioctl fd)) ≡ false
    → let calls = Call.ioctl fd ∷ asking_socket ∷ t in
      get_local_ip os t ≡ (some (first_address os (inet_front (os.interfaces calls))), calls)
unfolding get_local_ip close
get_local_ip_lem os t fd made is_made asked =
    let calls = Call.ioctl fd ∷ asking_socket ∷ t in
    rw (made, is_made, asked) (ap (λ o. (o, calls)) (local_ip_loop_lem os (os.interfaces calls)))
