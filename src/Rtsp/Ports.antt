-- ===== src/Rtsp/Ports.antt =====
-- `RtspConnection::CreateRtpRtcpOverUdp`: two UDP sockets on neighbouring ports.
-- What the system answers is an argument: a list with an attempt for each round.
use my_rtsp_server.Prelude.{
  ℕ, zero, suc, ◌+◌, ◌%◌, ◌<◌, ◌≡◌, refl, Bool, Option, none, some, List, [], ◌∷◌, ◌++◌, ltb, ◌==◌,
  if◌then◌else◌, arith, u16_mod,
}

-- What one round of the loop gets: each socket call a descriptor or an error (`none`), the number
-- of `rand()`, and whether each bind succeeds.
pub record Attempt : Type 0 where
  pub rtp_socket : Option ℕ
  pub rtcp_socket : Option ℕ
  pub random : ℕ
  pub bind_rtp : Bool
  pub bind_rtcp : Bool

pub record PortPair : Type 0 where
  pub rtp_sockfd : ℕ
  pub rtp_port : ℕ
  pub rtcp_sockfd : ℕ
  pub rtcp_port : ℕ

-- The calls that make and close sockets, in order.
pub data SocketCall : Type 0 where
  opened closed : ℕ → SocketCall

pub record Outcome : Type 0 where
  pub ports : Option PortPair
  pub calls : List SocketCall

-- `uint16_t port = rand() % 0xfffe; if(port < 10000) port += 10000;`
pub choose_port : ℕ → ℕ
choose_port random =
    let port = random % 0xfffe in if ltb port 10000 then (port + 10000) % u16_mod else port

failed_after : List SocketCall → Outcome
failed_after calls = record { ports = none; calls = calls }

prepend : List SocketCall → Outcome → Outcome
prepend calls o = record o { calls = calls ++ o.calls }

-- One round; `rest` is the loop from the next round on.
attempt : Attempt → Outcome → Outcome
unfolding choose_port failed_after prepend
attempt a rest = elim a.rtp_socket [
  | none ↦ failed_after []
  | some rtp ↦ elim a.rtcp_socket [
    | none ↦ failed_after (opened rtp ∷ closed rtp ∷ [])
    | some rtcp ↦
        let rtp_port = (choose_port a.random + 1) % u16_mod in
        let rtcp_port = (rtp_port + 1) % u16_mod in
        let closing = opened rtp ∷ opened rtcp ∷ closed rtp ∷ closed rtcp ∷ [] in
        if a.bind_rtp
        then (if a.bind_rtcp
            then record {
              ports = some (record {
                rtp_sockfd = rtp;
                rtp_port = rtp_port;
                rtcp_sockfd = rtcp;
                rtcp_port = rtcp_port;
              });
              calls = opened rtp ∷ opened rtcp ∷ [];
            }
            else prepend closing rest)
        else prepend closing rest
  ]
]

attempts : List Attempt → Outcome
unfolding attempt
attempts [] = failed_after []
attempts (a ∷ as') = attempt a (attempts as')

-- At most ten rounds.
take_ten : ℕ → List Attempt → List Attempt
take_ten zero as' = []
take_ten (suc n) [] = []
take_ten (suc n) (a ∷ as') = a ∷ take_ten n as'

pub create_rtp_rtcp_over_udp : List Attempt → Outcome
unfolding attempts take_ten
create_rtp_rtcp_over_udp as' = attempts (take_ten 10 as')

-- How often a descriptor is open behind a run of calls.
abbrev pub open_count : ℕ → List SocketCall → ℕ
open_count fd [] = 0
open_count fd (opened x ∷ cs) = if x == fd then suc (open_count fd cs) else open_count fd cs
open_count fd (closed x ∷ cs) = open_count fd cs

abbrev pub close_count : ℕ → List SocketCall → ℕ
close_count fd [] = 0
close_count fd (opened x ∷ cs) = close_count fd cs
close_count fd (closed x ∷ cs) = if x == fd then suc (close_count fd cs) else close_count fd cs

-- The descriptors that the result still uses.
abbrev pub held : ℕ → Option PortPair → ℕ
held fd none = 0
held fd (some p) = (if p.rtp_sockfd == fd then 1 else 0) + (if p.rtcp_sockfd == fd then 1 else 0)

abbrev pub IsPortPair : Option PortPair → Type 0
IsPortPair none = Unit
IsPortPair (some p) =
    (10000 < p.rtp_port) × (p.rtcp_port ≡ p.rtp_port + 1) × (p.rtcp_port < u16_mod)

attempts_balanced :
    (fd : ℕ) (as' : List Attempt)
    → (open_count fd (attempts as').calls
        ≡ close_count fd (attempts as').calls + held fd (attempts as').ports)
      × IsPortPair (attempts as').ports
unfolding attempts
attempts_balanced fd [] = (refl, tt)
attempts_balanced fd (a ∷ as') = ground (arith, attempts_balanced fd as')

-- Every socket that is opened is closed again, or is one of the two that the result holds,
-- whatever calls fail and in whichever round; and the two ports of a result are neighbours from
-- 10001 to 65535.
pub create_rtp_rtcp_over_udp_balanced :
    (fd : ℕ) (as' : List Attempt)
    → let o = create_rtp_rtcp_over_udp as' in
      (open_count fd o.calls ≡ close_count fd o.calls + held fd o.ports) × IsPortPair o.ports
unfolding create_rtp_rtcp_over_udp
create_rtp_rtcp_over_udp_balanced fd as' = attempts_balanced fd (take_ten 10 as')
