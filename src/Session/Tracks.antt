-- ===== src/Session/Tracks.antt =====
-- Registering and removing the instances of a session.
use my_rtsp_server.Prelude.{
  ℕ, suc, ◌+◌, ◌≡◌, refl, true, false, ◌&&◌, none, some, List, [], ◌∷◌, ◌++◌, arith, ◌==◌,
  if◌then◌else◌, Option-cases, inl, inr, ltb,
}
use my_rtsp_server.Session.{
  Slot, first, second, track_at, TrackId, track_id_none, track_id0, track_id1, MediaSession, new,
  get_track, push_instance, add_rtp_instance, erase_first, remove_from, remove_rtp_instance,
}

-- The constructor's ids stand at their places.
pub record IsValid (s : MediaSession) : Type 0 where
  pub id0 : s.track0.track_id ≡ track_id0
  pub id1 : s.track1.track_id ≡ track_id1

pub new-IsValid : (name : List ℕ) → IsValid (new name)
unfolding new
new-IsValid name = record { id0 = refl; id1 = refl }

-- How often an instance is registered.
abbrev pub count : ℕ → List ℕ → ℕ
count r [] = 0
count r (x ∷ xs) = if x == r then suc (count r xs) else count r xs

abbrev pub registered : ℕ → MediaSession → ℕ
registered r s = count r s.track0.rtp_instances + count r s.track1.rtp_instances

-- Only a live track has instances.
pub record IsTidy (s : MediaSession) : Type 0 where
  pub ids : IsValid s
  pub quiet0 : s.track0.is_alive ≡ false → s.track0.rtp_instances ≡ []
  pub quiet1 : s.track1.is_alive ≡ false → s.track1.rtp_instances ≡ []

count-append : (r : ℕ) (xs ys : List ℕ) → count r (xs ++ ys) ≡ count r xs + count r ys
count-append r [] ys = omega arith
count-append r (x ∷ xs) ys = ground (arith, count-append r xs ys)

erase_first-none : (r : ℕ) (xs : List ℕ) → erase_first r xs ≡ none → count r xs ≡ 0
unfolding erase_first
erase_first-none r [] h = refl
erase_first-none r (x ∷ xs) h = ground (arith, erase_first-none r xs)

erase_first-some :
    (r q : ℕ) (xs ys : List ℕ)
    → erase_first r xs ≡ some ys
    → count q xs ≡ count q ys + (if r == q then 1 else 0)
unfolding erase_first
erase_first-some r q [] ys h = cc
erase_first-some r q (x ∷ xs) ys h = elim (Option-cases (erase_first r xs)) [
  | inl e ↦ ground arith
  | inr (zs, e) ↦ ground (arith, erase_first-some r q xs zs e)
]

-- Registering an instance in a tidy session leaves a tidy one, in which that instance is
-- registered once more if the call says so, and every other as often as before.
pub add_rtp_instance-registered :
    (id : TrackId) (r q : ℕ) (s : MediaSession)
    → IsTidy s
    → let (done, s') = add_rtp_instance id r s in
      IsTidy s' × (registered q s' ≡ registered q s + (if done && (r == q) then 1 else 0))
unfolding add_rtp_instance get_track push_instance
add_rtp_instance-registered track_id_none r q s t = ground arith
add_rtp_instance-registered track_id0 r q s t =
    ground (arith, count-append q s.track0.rtp_instances (r ∷ []))
add_rtp_instance-registered track_id1 r q s t =
    ground (arith, count-append q s.track1.rtp_instances (r ∷ []))

-- Removing an instance from a tidy session takes out one registration of it, if there is one, and
-- says so; every other instance stays as often registered as it was, and the session stays tidy:
-- its tracks have their ids, and only a live track has instances.
pub remove_rtp_instance-registered :
    (r q : ℕ) (s : MediaSession)
    → IsTidy s
    → let (done, s') = remove_rtp_instance r s in
      IsTidy s'
      × (done ≡ ltb 0 (registered r s))
      × (registered q s ≡ registered q s' + (if done && (r == q) then 1 else 0))
unfolding remove_rtp_instance remove_from
remove_rtp_instance-registered r q s t =
    elim (Option-cases (erase_first r s.track0.rtp_instances)) [
      | inl e ↦ elim (Option-cases (erase_first r s.track1.rtp_instances)) [
        | inl e' ↦ ground (
          arith,
          erase_first-none r s.track0.rtp_instances e,
          erase_first-none r s.track1.rtp_instances e',
        )
        | inr (ys, e') ↦ ground (
          arith,
          erase_first-none r s.track0.rtp_instances e,
          erase_first-some r q s.track1.rtp_instances ys e',
          erase_first-some r r s.track1.rtp_instances ys e',
        )
      ]
      | inr (ys, e) ↦ ground (
        arith,
        erase_first-some r q s.track0.rtp_instances ys e,
        erase_first-some r r s.track0.rtp_instances ys e,
      )
    ]

-- A live track gets the new instance behind the others.
pub rtp_instances-add_rtp_instance :
    (id : TrackId) (r : ℕ) (i : Slot) (s : MediaSession)
    → get_track id s ≡ some i
    → (track_at i s).is_alive ≡ true
    → (track_at i (add_rtp_instance id r s).1).rtp_instances
      ≡ (track_at i s).rtp_instances ++ (r ∷ [])
unfolding add_rtp_instance push_instance get_track
rtp_instances-add_rtp_instance id r first s found alive = ground arith
rtp_instances-add_rtp_instance id r second s found alive = ground arith
