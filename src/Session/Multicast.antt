-- ===== src/Session/Multicast.antt =====
-- src/net/media_session.cpp: `StartMulticast`, and the destructor, which ends it. What `rand`,
-- `inet_ntoa` and the system's `socket` give are arguments, and so are the pointers that `new`
-- gives.
pub mod Silence
mod Tests
use Prim.Native.Nat.{bit_and}
use my_rtsp_server.Prelude.{
  ℕ, ◌+◌, ◌-◌, ◌%◌, ◌≡◌, ◌≢◌, ◌<◌, refl, sym, ap, subst, ◌∙◌, Bool, true, false, Option, none, some,
  List, [], ◌∷◌, ◌++◌, ltb, ◌==◌, ne→==, if◌then◌else◌, ◌>>=◌, ◌>>◌, assert, u16_mod, u32_mod,
  arith,
}
use my_rtsp_server.Rtp.{RtpPacket}
use my_rtsp_server.Rtp.Instance.{
  RtpInstance, RtcpInstance, new_over_udp, new_rtcp, Transmission, send,
}
use my_rtsp_server.Session.{
  MediaSession, Track, Instances, Slot, first, second, track_at, track_id0, track_id1, get_track,
  push_instance, add_rtp_instance, remove_rtp_instance, send_all, send_packet,
  get_multicast_dest_rtp_port,
}

-- `socks` are the sockets for RTP and for RTCP of the two tracks, 0 for one that failed.
pub record Draws : Type 0 where
  pub addr_rand : ℕ
  pub port_rand : ℕ
  pub rtp_sockfd1 : ℕ
  pub rtp_sockfd2 : ℕ
  pub rtcp_sockfd1 : ℕ
  pub rtcp_sockfd2 : ℕ
  pub rtp1 : ℕ
  pub rtp2 : ℕ
  pub rtcp1 : ℕ
  pub rtcp2 : ℕ
  pub unset_channel : ℕ
  pub unset_alive : Bool
  pub unset_id : ℕ

abbrev pub Rtcps : Type 0
Rtcps = ℕ → Option RtcpInstance

abbrev pub multicast_addr : ℕ → ℕ
multicast_addr draw = (0xE8000100 + draw % (0xE8FFFFFF - 0xE8000100)) % u32_mod

unfoldable pub multicast_port : ℕ → ℕ
multicast_port draw =
    let port = bit_and draw 0xFFFE in if ltb port 10000 then port + 10000 else port

abbrev pub after_port : ℕ → ℕ
after_port port = (port + 1) % u16_mod

abbrev pub point {ℓ} : {A : Type ℓ} → ℕ → Option A → (ℕ → Option A) → ℕ → Option A
point p v heap q = if p == q then v else heap q

-- What is behind the asserts; the result has the session and the two heaps.
unfoldable pub build_multicast :
    (ℕ → List ℕ) → Draws → Instances → Rtcps → MediaSession → MediaSession × Instances × Rtcps
build_multicast inet_ntoa d heap rtcps s =
    let addr = inet_ntoa (multicast_addr d.addr_rand) in
    let rtp_port1 = multicast_port d.port_rand in
    let rtcp_port1 = after_port rtp_port1 in
    let rtp_port2 = after_port rtcp_port1 in
    let rtcp_port2 = after_port rtp_port2 in
    let heap' =
      point d.rtp2 (some (new_over_udp d.rtp_sockfd2 0 addr rtp_port2 d.unset_channel))
        (point d.rtp1 (some (new_over_udp d.rtp_sockfd1 0 addr rtp_port1 d.unset_channel)) heap) in
    let rtcps' =
      point d.rtcp2 (some (new_rtcp d.rtcp_sockfd2 0 addr rtcp_port2 d.unset_alive d.unset_id)) (
        point d.rtcp1 (some (new_rtcp d.rtcp_sockfd1 0 addr rtcp_port1 d.unset_alive d.unset_id))
          rtcps) in
    let s1 = record s {
      multicast_addr = addr;
      multicast_rtp0 = some d.rtp1;
      multicast_rtp1 = some d.rtp2;
      multicast_rtcp0 = some d.rtcp1;
      multicast_rtcp1 = some d.rtcp2;
    } in
    let s2 = (add_rtp_instance track_id0 d.rtp1 s1).1 in
    let s3 = (add_rtp_instance track_id1 d.rtp2 s2).1 in
    (record s3 { is_start_multicast = true }, heap', rtcps')

-- `none`: an assert.
unfoldable pub start_multicast :
    (ℕ → List ℕ)
    → Draws
    → Instances
    → Rtcps
    → MediaSession
    → Option (MediaSession × Instances × Rtcps)
start_multicast inet_ntoa d heap rtcps s =
    assert (ltb 0 d.rtp_sockfd1)
    >> assert (ltb 0 d.rtp_sockfd2)
    >> assert (ltb 0 d.rtcp_sockfd1)
    >> assert (ltb 0 d.rtcp_sockfd2)
    >> some (build_multicast inet_ntoa d heap rtcps s)

-- The rounds of the destructor.
unfoldable pub delete_rtp : Option ℕ → MediaSession × Instances → MediaSession × Instances
delete_rtp none (s, heap) = (s, heap)
delete_rtp (some r) (s, heap) = ((remove_rtp_instance r s).1, point r none heap)

unfoldable pub delete_rtcp : Option ℕ → Rtcps → Rtcps
delete_rtcp none rtcps = rtcps
delete_rtcp (some c) rtcps = point c none rtcps

unfoldable pub destroy : MediaSession → Instances → Rtcps → MediaSession × Instances × Rtcps
destroy s heap rtcps =
    let (s', heap') = delete_rtp s.multicast_rtp1 (delete_rtp s.multicast_rtp0 (s, heap)) in
    (s', heap', delete_rtcp s.multicast_rtcp1 (delete_rtcp s.multicast_rtcp0 rtcps))
