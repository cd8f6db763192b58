-- ===== src/Rtp/Instance.antt =====
-- include/net/rtp_instance.h: the sending ends of a track, one for RTP and one for RTCP.
-- What goes to the socket is a value: the socket layer is not part of this model.
pub mod Wire
use Prim.Native.Nat.{bit_and}
use my_rtsp_server.Prelude.{
  ℕ, ◌+◌, ◌*◌, ◌/◌, ◌%◌, ◌^◌, Bool, true, false, List, [], ◌∷◌, ◌++◌, u8_mod, u16_mod, take,
}
use my_rtsp_server.Rtp.{RtpHeader, RtpPacket, rtp_header_size}

pub data RtpType : Type 0 where
  rtp_over_udp rtp_over_tcp : RtpType

pub record Ipv4Address : Type 0 where
  pub ip : List ℕ
  pub port : ℕ

-- What a constructor leaves unset is a parameter of `new_over_udp` and `new_over_tcp`.
pub record RtpInstance : Type 0 where
  pub rtp_type : RtpType
  pub sock_fd : ℕ
  pub local_port : ℕ
  pub dest_addr : Ipv4Address
  pub is_alive : Bool
  pub session_id : ℕ
  pub rtp_channel : ℕ

unfoldable pub new_over_udp : ℕ → ℕ → List ℕ → ℕ → ℕ → RtpInstance
new_over_udp local_sockfd local_port dest_ip dest_port unset_channel = record {
  rtp_type = rtp_over_udp;
  sock_fd = local_sockfd;
  local_port = local_port;
  dest_addr = record { ip = dest_ip; port = dest_port };
  is_alive = false;
  session_id = 0;
  rtp_channel = unset_channel;
}

unfoldable pub new_over_tcp : ℕ → ℕ → ℕ → Ipv4Address → RtpInstance
new_over_tcp client_sockfd rtp_channel unset_port unset_addr = record {
  rtp_type = rtp_over_tcp;
  sock_fd = client_sockfd;
  local_port = unset_port;
  dest_addr = unset_addr;
  is_alive = false;
  session_id = 0;
  rtp_channel = rtp_channel;
}

unfoldable pub set_alive : Bool → RtpInstance → RtpInstance
set_alive alive r = record r { is_alive = alive }

-- The argument is a `uint16_t`: a session's 32-bit id loses its upper half.
unfoldable pub set_session_id : ℕ → RtpInstance → RtpInstance
set_session_id session_id r = record r { session_id = session_id % u16_mod }

pub record RtcpInstance : Type 0 where
  pub local_sockfd : ℕ
  pub local_port : ℕ
  pub dest_addr : Ipv4Address
  pub is_alive : Bool
  pub session_id : ℕ

pub new_rtcp : ℕ → ℕ → List ℕ → ℕ → Bool → ℕ → RtcpInstance
new_rtcp local_sockfd local_port dest_ip dest_port unset_alive unset_id = record {
  local_sockfd = local_sockfd;
  local_port = local_port;
  dest_addr = record { ip = dest_ip; port = dest_port };
  is_alive = unset_alive;
  session_id = unset_id;
}

pub set_rtcp_alive : Bool → RtcpInstance → RtcpInstance
set_rtcp_alive alive r = record r { is_alive = alive }

pub set_rtcp_session_id : ℕ → RtcpInstance → RtcpInstance
set_rtcp_session_id session_id r = record r { session_id = session_id % u16_mod }

-- The header's twelve bytes, the bit fields from the low end as the ABI lays them out.
pub header_bytes : RtpHeader → List ℕ
header_bytes h =
    (h.csrc_len + h.extension * 2 ^ 4 + h.padding * 2 ^ 5 + h.version * 2 ^ 6)
    ∷ (h.payload_type + h.marker * 2 ^ 7)
    ∷ (h.seq / 2 ^ 8 % u8_mod)
    ∷ (h.seq % u8_mod)
    ∷ (h.timestamp / 2 ^ 24 % u8_mod)
    ∷ (h.timestamp / 2 ^ 16 % u8_mod)
    ∷ (h.timestamp / 2 ^ 8 % u8_mod)
    ∷ (h.timestamp % u8_mod)
    ∷ (h.ssrc / 2 ^ 24 % u8_mod)
    ∷ (h.ssrc / 2 ^ 16 % u8_mod)
    ∷ (h.ssrc / 2 ^ 8 % u8_mod)
    ∷ (h.ssrc % u8_mod)
    ∷ []

-- The bytes from `m_buffer_` on.
pub packet_bytes : RtpPacket → List ℕ
packet_bytes p = header_bytes p.header ++ p.payload

pub data Transmission : Type 0 where
  sendto : ℕ → List ℕ → Ipv4Address → Transmission
  write : ℕ → List ℕ → Transmission

pub send : RtpPacket → RtpInstance → Transmission
send p r = elim r.rtp_type [
  | rtp_over_udp ↦ sendto r.sock_fd (take p.size (packet_bytes p)) r.dest_addr
  | rtp_over_tcp ↦ write r.sock_fd (
      take (p.size + 4) (
        b'$'
        ∷ (r.rtp_channel % u8_mod)
        ∷ (bit_and p.size 0xFF00 / 2 ^ 8 % u8_mod)
        ∷ (bit_and p.size 0xFF % u8_mod)
        ∷ packet_bytes p))
]
