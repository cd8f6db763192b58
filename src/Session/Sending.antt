-- ===== src/Session/Sending.antt =====
-- Who gets a packet of a track.
use my_rtsp_server.Prelude.{
  ℕ, ◌≡◌, refl, sym, ap, ◌∙◌, true, false, none, some, List, [], ◌∷◌, ◌++◌, map, arith,
  if◌then◌else◌, ◌==◌, ==_iff, Bool-cases, inl, inr,
}
use my_rtsp_server.Rtp.{RtpPacket}
use my_rtsp_server.Rtp.Instance.{RtpInstance, send}
use my_rtsp_server.Session.{Instances, MediaSession, Slot, track_at, send_all, send_packet}

abbrev pub alive_ones : List RtpInstance → List RtpInstance
alive_ones [] = []
alive_ones (i ∷ is') = if i.is_alive then i ∷ alive_ones is' else alive_ones is'

-- The pointers point to these instances.
abbrev pub PointTo : Instances → List ℕ → List RtpInstance → Type 0
PointTo heap [] [] = Unit
PointTo heap [] (i ∷ is') = ⊥
PointTo heap (r ∷ rs) [] = ⊥
PointTo heap (r ∷ rs) (i ∷ is') = (heap r ≡ some i) × PointTo heap rs is'

send_all_alive :
    (heap : Instances) (rs : List ℕ) (is' : List RtpInstance) (p : RtpPacket)
    → PointTo heap rs is'
    → send_all heap rs p ≡ some (map (send p) (alive_ones is'))
unfolding send_all
send_all_alive heap [] [] p h = refl
send_all_alive heap [] (i ∷ is') p h = absurd h
send_all_alive heap (r ∷ rs) [] p h = absurd h
send_all_alive heap (r ∷ rs) (i ∷ is') p h = ground (arith, send_all_alive heap rs is' p h.1)

-- A packet goes, in the order of registration, to exactly the instances of the track that are
-- alive, each by its own transport, where every pointer of the track points to an instance.
pub send_packet_alive :
    (heap : Instances) (slot : Slot) (is' : List RtpInstance) (p : RtpPacket) (s : MediaSession)
    → PointTo heap (track_at slot s).rtp_instances is'
    → send_packet heap slot p s ≡ some (map (send p) (alive_ones is'))
unfolding send_packet
send_packet_alive heap slot is' p s h = send_all_alive heap (track_at slot s).rtp_instances is' p h

-- Pointers that point elsewhere go on pointing where they did.
pub PointTo-update :
    (heap heap' : Instances) (n : ℕ) (rs : List ℕ) (is' : List RtpInstance)
    → heap n ≡ none
    → ((q : ℕ) → (n == q) ≡ false → heap' q ≡ heap q)
    → PointTo heap rs is'
    → PointTo heap' rs is'
PointTo-update heap heap' n [] [] free same h = tt
PointTo-update heap heap' n [] (i ∷ is') free same h = absurd h
PointTo-update heap heap' n (r ∷ rs) [] free same h = absurd h
PointTo-update heap heap' n (r ∷ rs) (i ∷ is') free same h =
    let apart : (n == r) ≡ false = elim (Bool-cases (n == r)) [
      | inl e ↦ cc (sym h.0 ∙ ap heap (sym ((==_iff n r).0 e)) ∙ free)
      | inr e ↦ e
    ] in
    (same r apart ∙ h.0, PointTo-update heap heap' n rs is' free same h.1)

pub PointTo-append :
    (heap : Instances) (rs : List ℕ) (is' : List RtpInstance) (r : ℕ) (i : RtpInstance)
    → PointTo heap rs is'
    → heap r ≡ some i
    → PointTo heap (rs ++ (r ∷ [])) (is' ++ (i ∷ []))
PointTo-append heap [] [] r i h e = (e, tt)
PointTo-append heap [] (j ∷ is') r i h e = absurd h
PointTo-append heap (q ∷ rs) [] r i h e = absurd h
PointTo-append heap (q ∷ rs) (j ∷ is') r i h e = (h.0, PointTo-append heap rs is' r i h.1 e)

pub sends-append :
    (p : RtpPacket) (is' : List RtpInstance) (i : RtpInstance)
    → i.is_alive ≡ true
    → map (send p) (alive_ones (is' ++ (i ∷ []))) ≡ map (send p) (alive_ones is') ++ (send p i ∷ [])
sends-append p [] i alive = simp alive refl
sends-append p (j ∷ is') i alive = elim (Bool-cases j.is_alive) [
  | inl e ↦ simp e (ap (λ l. send p j ∷ l) (sends-append p is' i alive))
  | inr e ↦ simp e (sends-append p is' i alive)
]
