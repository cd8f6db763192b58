-- ===== src/Server/Owners.antt =====
-- Who owns an instance, and what a destructor frees (src/net/rtsp_connection.cpp).
use my_rtsp_server.Prelude.{
  ℕ, ◌≡◌, refl, ap, ◌∙◌, Bool, true, false, ◌||◌, ◌&&◌, Option, none, some, List, ◌==◌, ==_iff,
  if◌then◌else◌, Returns, Returns->>=, Returns-map, arith,
}
use my_rtsp_server.Rtsp.{RtspConnection}
use my_rtsp_server.Session.{MediaSession, remove_rtp_instance}
use my_rtsp_server.Poller.{Poller}
use my_rtsp_server.Poller.Interest.{is_some, is_some-some}
use my_rtsp_server.Rtsp.World.{World, lookup_media_session, lookup-update_session-some}
use my_rtsp_server.Rtsp.Response.{
  delete_rtp_instance, delete_rtcp_instance, release_track, destroy, delete_connection,
}

-- The session of a connection is one that the server keeps.
abbrev pub IsReleasable : RtspConnection → World → Type 0
IsReleasable c w =
    (own : List ℕ) × (s : MediaSession) × (c.session ≡ some own)
    × (lookup_media_session own w.sessions ≡ some s)

abbrev pub points : Option ℕ → ℕ → Bool
points none p = false
points (some q) p = q == p

-- An element of the connection's array points to `p`.
abbrev pub holds_rtp : ℕ → RtspConnection → Bool
holds_rtp p c = points c.rtp0 p || points c.rtp1 p

abbrev pub holds_rtcp : ℕ → RtspConnection → Bool
holds_rtcp p c = points c.rtcp0 p || points c.rtcp1 p

-- What a destructor needs: the pointers are to instances, to none twice, and a connection with an
-- RTP instance has a session.
pub record IsDeletable (c : RtspConnection) (w : World) : Type 0 where
  pub named : (p : ℕ) → holds_rtp p c ≡ true → IsReleasable c w
  pub rtp : (p : ℕ) → holds_rtp p c ≡ true → is_some (w.instances p) ≡ true
  pub rtcp : (p : ℕ) → holds_rtcp p c ≡ true → is_some (w.rtcp_instances p) ≡ true
  pub two : (p : ℕ) → (points c.rtp0 p && points c.rtp1 p) ≡ false
  pub two_rtcp : (p : ℕ) → (points c.rtcp0 p && points c.rtcp1 p) ≡ false

-- No session goes.
unfoldable pub Keeps : World → World → Type 0
Keeps w w' =
    (key : List ℕ) (s : MediaSession)
    → lookup_media_session key w.sessions ≡ some s
    → (s' : MediaSession) × (lookup_media_session key w'.sessions ≡ some s')

-- The instances that `f` and `g` name are gone, and no other.
unfoldable pub Freed : (ℕ → Bool) → (ℕ → Bool) → World → World → Type 0
Freed f g w w' =
    Keeps w w'
    × ((p : ℕ) → w'.instances p ≡ (if f p then none else w.instances p))
    × ((p : ℕ) → w'.rtcp_instances p ≡ (if g p then none else w.rtcp_instances p))

either {ℓ} :
    {A : Type ℓ} (a b : Bool) (x y z : Option A)
    → y ≡ (if a then none else x)
    → z ≡ (if b then none else y)
    → z ≡ (if a || b then none else x)
either true true x y z h k = k
either true false x y z h k = k ∙ h
either false true x y z h k = k
either false false x y z h k = k ∙ h

pub Freed-trans :
    (f g f' g' : ℕ → Bool) (w w1 w2 : World)
    → Freed f g w w1
    → Freed f' g' w1 w2
    → Freed (λ p. f p || f' p) (λ p. g p || g' p) w w2
unfolding Freed Keeps
Freed-trans f g f' g' w w1 w2 (k, a, b) (k', a', b') = (
  λ key s q. let (s1, q1) = k key s q in k' key s1 q1,
  λ p. either (f p) (f' p) (w.instances p) (w1.instances p) (w2.instances p) (a p) (a' p),
  λ p.
      either (g p) (g' p) (w.rtcp_instances p) (w1.rtcp_instances p) (w2.rtcp_instances p) (b p)
        (b' p),
)

delete_rtp_instance-Freed :
    (o : Option ℕ) (c : RtspConnection) (w : World)
    → ((p : ℕ) → points o p ≡ true → IsReleasable c w)
    → ((p : ℕ) → points o p ≡ true → is_some (w.instances p) ≡ true)
    → Returns (Freed (points o) (λ p. false) w) (delete_rtp_instance o c w)
unfolding Freed Keeps delete_rtp_instance
delete_rtp_instance-Freed none c w h g = (λ key s q. (s, q), λ p. refl, λ p. refl)
delete_rtp_instance-Freed (some p) c w h g =
    let here = (==_iff p p).1 refl in
    let (own, s, q, d) = h p here in
    let (i, at) = is_some-some (w.instances p) (g p here) in
    simp (q, d, at)
      (
        λ key u. lookup-update_session-some own key (remove_rtp_instance p s).1 s u w.sessions d,
        λ k. refl,
        λ k. refl,
      )

delete_rtcp_instance-Freed :
    (r : Option ℕ) (w : World)
    → ((p : ℕ) → points r p ≡ true → is_some (w.rtcp_instances p) ≡ true)
    → Returns (Freed (λ p. false) (points r) w) (delete_rtcp_instance r w)
unfolding Freed Keeps delete_rtcp_instance
delete_rtcp_instance-Freed none w g = (λ key s q. (s, q), λ p. refl, λ p. refl)
delete_rtcp_instance-Freed (some p) w g =
    let (i, at) = is_some-some (w.rtcp_instances p) (g p ((==_iff p p).1 refl)) in
    simp at (λ key s q. (s, q), λ k. refl, λ k. refl)

-- One round of the loop, with what it needs of the two pointers.
record CanRelease (o r : Option ℕ) (c : RtspConnection) (w : World) : Type 0 where
  named : (p : ℕ) → points o p ≡ true → IsReleasable c w
  rtp : (p : ℕ) → points o p ≡ true → is_some (w.instances p) ≡ true
  rtcp : (p : ℕ) → points r p ≡ true → is_some (w.rtcp_instances p) ≡ true

release_track-Freed :
    (o r : Option ℕ) (c : RtspConnection) (w : World)
    → CanRelease o r c w
    → Returns
        (Freed (λ p. points o p || false) (λ p. false || points r p) w)
        (release_track o r c w)
unfolding release_track Freed
release_track-Freed o r c w v =
    Returns->>= (Freed (points o) (λ p. false) w) _ (delete_rtp_instance o c w) _
      (delete_rtp_instance-Freed o c w v.named v.rtp)
      (λ w1 k.
        Returns-map {Q = Freed (λ p. points o p || false) (λ p. false || points r p) w}
          (delete_rtcp_instance r w1)
          (λ w2 l. Freed-trans (points o) (λ p. false) (λ p. false) (points r) w w1 w2 k l)
          (delete_rtcp_instance-Freed r w1 (λ p h. ap is_some (k.2 p) ∙ v.rtcp p h)))

module _ (c : RtspConnection) (w : World) (v : IsDeletable c w) where
  first : CanRelease c.rtp0 c.rtcp0 c w
  first = record {
    named = λ p h. v.named p (rw h refl);
    rtp = λ p h. v.rtp p (rw h refl);
    rtcp = λ p h. v.rtcp p (rw h refl);
  }

  second :
      (w1 : World)
      → Freed (λ p. points c.rtp0 p || false) (λ p. false || points c.rtcp0 p) w w1
      → CanRelease c.rtp1 c.rtcp1 c w1
  unfolding Freed Keeps
  second w1 (k, a, b) = record {
    named = λ p h.
        let (own, s, q, d) = v.named p (ground (arith, h)) in
        (own, (k own s d).0, q, (k own s d).1);
    rtp = λ p h. ground (arith, h, a p, v.two p, v.rtp p);
    rtcp = λ p h. ground (arith, h, b p, v.two_rtcp p, v.rtcp p);
  }

  pub destroy-Freed : Returns (Freed (λ p. holds_rtp p c) (λ p. holds_rtcp p c) w) (destroy c w)
  unfolding destroy Freed
  destroy-Freed =
      Returns->>= (Freed (λ p. points c.rtp0 p || false) (λ p. false || points c.rtcp0 p) w) _
        (release_track c.rtp0 c.rtcp0 c w) _ (release_track-Freed c.rtp0 c.rtcp0 c w first)
        (λ w1 k.
          Returns-map {Q = Freed (λ p. holds_rtp p c) (λ p. holds_rtcp p c) w}
            (release_track c.rtp1 c.rtcp1 c w1)
            (λ w2 l.
              let (m, a, b) =
                Freed-trans (λ p. points c.rtp0 p || false) (λ p. false || points c.rtcp0 p)
                  (λ p. points c.rtp1 p || false) (λ p. false || points c.rtcp1 p) w w1 w2 k l in
              (m, λ p. ground (arith, a p), λ p. ground (arith, b p)))
            (release_track-Freed c.rtp1 c.rtcp1 c w1 (second w1 k)))

  pub delete_connection-Freed :
      (poller : Poller)
      → Returns
          (λ r. Freed (λ p. holds_rtp p c) (λ p. holds_rtcp p c) w r.0)
          (delete_connection c w poller)
  unfolding delete_connection Freed Keeps
  delete_connection-Freed poller =
      Returns->>= (Freed (λ p. holds_rtp p c) (λ p. holds_rtcp p c) w) _ (destroy c w) _
        destroy-Freed (λ w1 k. k)
