-- ===== src/Session.antt =====
-- include/net/media_session.h and src/net/media_session.cpp: a session's two tracks and the
-- instances that their packets go to. A pointer to an instance or a sink is a number; the instances
-- themselves stand in a heap, where a deleted one is `none`.
pub mod Tracks
pub mod Sending
pub mod Sdp
pub mod Multicast
pub mod Tests
use mathlib.Core.Option
use my_rtsp_server.Prelude.{
  ℕ, ◌+◌, ◌≡◌, Bool, true, false, ◌&&◌, ◌||◌, Option, none, some, List, [], ◌∷◌, ◌++◌, ◌==◌,
  if◌then◌else◌, ◌>>=◌, ltb, ◌-◌, ◌%◌, u16_mod,
}
use Prim.Native.Nat.{bit_and}
use my_rtsp_server.Rtp.{RtpPacket}
use my_rtsp_server.Rtp.Instance.{
  RtpInstance, RtcpInstance, new_over_udp, new_rtcp, Transmission, send,
}

pub data TrackId : Type 0 where
  track_id_none track_id0 track_id1 : TrackId

abbrev pub same_track : TrackId → TrackId → Bool
same_track track_id_none track_id_none = true
same_track track_id_none track_id0 = false
same_track track_id_none track_id1 = false
same_track track_id0 track_id_none = false
same_track track_id0 track_id0 = true
same_track track_id0 track_id1 = false
same_track track_id1 track_id_none = false
same_track track_id1 track_id0 = false
same_track track_id1 track_id1 = true

pub record Track : Type 0 where
  pub rtp_sink : Option ℕ
  pub track_id : TrackId
  pub is_alive : Bool
  pub rtp_instances : List ℕ

-- The arrays of two elements are two fields each.
pub record MediaSession : Type 0 where
  pub session_name : List ℕ
  pub sdp : List ℕ
  pub track0 : Track
  pub track1 : Track
  pub is_start_multicast : Bool
  pub multicast_addr : List ℕ
  pub multicast_rtp0 : Option ℕ
  pub multicast_rtp1 : Option ℕ
  pub multicast_rtcp0 : Option ℕ
  pub multicast_rtcp1 : Option ℕ

abbrev new_track : TrackId → Track
new_track id = record { rtp_sink = none; track_id = id; is_alive = false; rtp_instances = [] }

unfoldable pub new : List ℕ → MediaSession
new session_name = record {
  session_name = session_name;
  sdp = [];
  track0 = new_track track_id0;
  track1 = new_track track_id1;
  is_start_multicast = false;
  multicast_addr = [];
  multicast_rtp0 = none;
  multicast_rtp1 = none;
  multicast_rtcp0 = none;
  multicast_rtcp1 = none;
}

-- A place of the array `m_tracks_`.
pub data Slot : Type 0 where
  first second : Slot

abbrev pub track_at : Slot → MediaSession → Track
track_at first s = s.track0
track_at second s = s.track1

abbrev put_track : Slot → Track → MediaSession → MediaSession
put_track first t s = record s { track0 = t }
put_track second t s = record s { track1 = t }

unfoldable pub get_track : TrackId → MediaSession → Option Slot
get_track id s =
    if same_track s.track0.track_id id
    then some first
    else if same_track s.track1.track_id id
    then some second
    else none

unfoldable pub add_rtp_sink : TrackId → ℕ → MediaSession → Bool × MediaSession
unfolding get_track
add_rtp_sink id rtp_sink s = elim (get_track id s) [
  | none ↦ (false, s)
  | some i ↦
      (true, put_track i (record (track_at i s) { rtp_sink = some rtp_sink; is_alive = true }) s)
]

push_instance : Slot → ℕ → MediaSession → MediaSession
push_instance i r s =
    put_track i (record (track_at i s) { rtp_instances = (track_at i s).rtp_instances ++ (r ∷ []) })
      s

pub add_rtp_instance : TrackId → ℕ → MediaSession → Bool × MediaSession
unfolding get_track push_instance
add_rtp_instance id r s = elim (get_track id s) [
  | none ↦ (false, s)
  | some i ↦ if (track_at i s).is_alive then (true, push_instance i r s) else (false, s)
]

-- `std::find`, and `erase` at what it found; `none` where it found nothing.
unfoldable pub erase_first : ℕ → List ℕ → Option (List ℕ)
erase_first r [] = none
erase_first r (x ∷ xs) =
    let rest = Option.map (λ ys. x ∷ ys) (erase_first r xs) in if x == r then some xs else rest

-- One round of the loop of `RemoveRtpInstance`; `none` where it goes on.
remove_from : Slot → ℕ → MediaSession → Option MediaSession
unfolding erase_first
remove_from i r s =
    if (track_at i s).is_alive
    then Option.map (λ rest. put_track i (record (track_at i s) { rtp_instances = rest }) s)
        (erase_first r (track_at i s).rtp_instances)
    else none

pub remove_rtp_instance : ℕ → MediaSession → Bool × MediaSession
unfolding remove_from
remove_rtp_instance r s = elim (remove_from first r s) [
  | some s' ↦ (true, s')
  | none ↦ elim (remove_from second r s) [ some s' ↦ (true, s') | none ↦ (false, s) ]
]

-- The instances by pointer.
abbrev pub Instances : Type 0
Instances = ℕ → Option RtpInstance

-- `SendPacket`: what is sent, in order. `none` is a use of a deleted instance.
send_all : Instances → List ℕ → RtpPacket → Option (List Transmission)
send_all heap [] p = some []
send_all heap (r ∷ rs) p = do
  i ← heap r
  rest ← send_all heap rs p
  some (if i.is_alive then send p i ∷ rest else rest)

pub send_packet : Instances → Slot → RtpPacket → MediaSession → Option (List Transmission)
unfolding send_all
send_packet heap i p s = send_all heap (track_at i s).rtp_instances p

-- `uint16_t` of -1 where there is no instance; `none` is a read before the array, or of a deleted
-- instance.
pub get_multicast_dest_rtp_port : Instances → TrackId → MediaSession → Option ℕ
get_multicast_dest_rtp_port heap track_id_none s = none
get_multicast_dest_rtp_port heap track_id0 s = elim s.multicast_rtp0 [
  | none ↦ some 65535
  | some r ↦ Option.map (λ (i : RtpInstance). i.dest_addr.port) (heap r)
]
get_multicast_dest_rtp_port heap track_id1 s = elim s.multicast_rtp1 [
  | none ↦ some 65535
  | some r ↦ Option.map (λ (i : RtpInstance). i.dest_addr.port) (heap r)
]
