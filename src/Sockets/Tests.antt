-- ===== src/Sockets/Tests.antt =====
-- The theorems at concrete systems.
use my_rtsp_server.Prelude.{
  ℕ, ◌-◌, ◌^◌, ◌≡◌, refl, true, some, List, [], ◌∷◌, ◌==◌, if◌then◌else◌, arith,
}
use my_rtsp_server.Prelude.Text.{codes, bytes_eq}
use my_rtsp_server.Sockets.System.{Call, Kernel}
use my_rtsp_server.Sockets.{af_inet, f_getfl, f_getfd, f_setfl, f_setfd, get_local_ip, connect}
use my_rtsp_server.Sockets.LocalIp.{asking_socket, get_local_ip_lem}
use my_rtsp_server.Sockets.Connect.{IsFcntl, flags_of, blocking, non_blocking, connect_lem}

-- `fcntl` of the descriptor 7, a `connect` that is under way, and success else.
abbrev answer : List Call → Call → ℕ
answer t (Call.fcntl fd cmd flags) =
    if cmd == f_getfl
    then flags_of f_setfl 7 2 t
    else if cmd == f_getfd
    then flags_of f_setfd 7 0 t
    else 0
answer t (Call.connect fd addr) = 2 ^ 32 - 1
answer t c = 0

abbrev pub kernel : Kernel
kernel = record {
  answer = answer;
  peer = λ t fd. record { family = af_inet; addr = 0; port = 0 };
  interfaces = λ t.
      record { name = codes "lo"; family = af_inet; addr = 1 }
      ∷ record { name = codes "eth0"; family = af_inet; addr = 2 }
      ∷ [];
  left_in_set = λ t fd. true;
  inet_addr = λ ip. 0;
  inet_ntoa = λ n. if n == 2 then codes "10.0.0.2" else codes "127.0.0.1";
}

kernel-IsFcntl : IsFcntl kernel 7 2 0
kernel-IsFcntl t is_open = (refl, refl)

get_local_ip_lem_example :
    get_local_ip kernel [] ≡ (some (codes "10.0.0.2"), Call.ioctl 0 ∷ asking_socket ∷ [])
unfolding bytes_eq
get_local_ip_lem_example = get_local_ip_lem kernel [] 0 refl refl refl

connect_lem_example :
    let (result, t') = connect kernel 7 (codes "10.0.0.9") 554 1500 [] in
    (result ≡ some true) × (flags_of f_setfl 7 2 t' ≡ blocking (non_blocking 2))
connect_lem_example =
    connect_lem kernel 7 2 0 (codes "10.0.0.9") 554 1500 [] kernel-IsFcntl refl refl (omega arith)
