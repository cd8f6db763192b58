-- ===== src/Server/Disconnection.antt =====
-- The end of connections: what is listed is deleted, once, and nothing else.
use my_rtsp_server.Prelude.{
  ℕ, zero, suc, ◌≡◌, refl, sym, ap, ◌∙◌, Bool, true, false, ◌||◌, Option, none, some, List, [], ◌∷◌,
  ◌==◌, if◌then◌else◌, subst, ◌>>=◌, Returns, Returns->>=, Returns-map, arith,
}
use my_rtsp_server.Rtsp.{RtspConnection}
use my_rtsp_server.Poller.{Poller}
use my_rtsp_server.Poller.Interest.{is_some}
use my_rtsp_server.Rtsp.World.{World}
use my_rtsp_server.Rtsp.Response.{delete_connection}
use my_rtsp_server.Server.{
  Connections, RtspServer, find_connection, erase_connection, delete_all, handle_events,
  handle_disconnection_list, handle_triggle_events,
}
use my_rtsp_server.Server.Owners.{
  IsDeletable, Keeps, Freed, Freed-trans, holds_rtp, holds_rtcp, delete_connection-Freed,
}

abbrev pub is_listed : ℕ → List ℕ → Bool
is_listed fd [] = false
is_listed fd (k ∷ ks) = (k == fd) || is_listed fd ks

-- Each socket is listed once, and has a connection.
abbrev pub IsPending : List ℕ → Connections → Type 0
IsPending [] m = (m ≡ m)
IsPending (fd ∷ fds) m =
    (is_listed fd fds ≡ false)
    × ((c : RtspConnection) × (find_connection fd m ≡ some c))
    × IsPending fds m

-- Each connection's pointers are to instances, and no two connections share one.
pub record IsOwned (m : Connections) (w : World) : Type 0 where
  pub deletable : (fd : ℕ) (c : RtspConnection) → find_connection fd m ≡ some c → IsDeletable c w
  pub apart :
      (fd k p : ℕ) (c d : RtspConnection)
      → find_connection fd m ≡ some c
      → find_connection k m ≡ some d
      → (fd == k) ≡ false
      → holds_rtp p c ≡ true
      → holds_rtp p d ≡ false
  pub apart_rtcp :
      (fd k p : ℕ) (c d : RtspConnection)
      → find_connection fd m ≡ some c
      → find_connection k m ≡ some d
      → (fd == k) ≡ false
      → holds_rtcp p c ≡ true
      → holds_rtcp p d ≡ false

pub find-erase_connection :
    (fd k : ℕ) (m : Connections)
    → find_connection fd (erase_connection k m) ≡ (if k == fd then none else find_connection fd m)
unfolding find_connection erase_connection
find-erase_connection fd k [] = ground arith
find-erase_connection fd k ((j, c) ∷ m) = ground (arith, find-erase_connection fd k m)

find-erased :
    (fd k : ℕ) (d : RtspConnection) (m : Connections)
    → find_connection k (erase_connection fd m) ≡ some d
    → ((fd == k) ≡ false) × (find_connection k m ≡ some d)
find-erased fd k d m h = ground (arith, find-erase_connection k fd m, h)

swap-== : (a b : ℕ) → (a == b) ≡ false → (b == a) ≡ false
swap-== a b h = ground arith

IsOwned-erase :
    (fd : ℕ) (c : RtspConnection) (m : Connections) (w w1 : World)
    → find_connection fd m ≡ some c
    → IsOwned m w
    → Freed (λ p. holds_rtp p c) (λ p. holds_rtcp p c) w w1
    → IsOwned (erase_connection fd m) w1
unfolding Freed Keeps
IsOwned-erase fd c m w w1 found v (k, a, b) = record {
  deletable = λ j d h.
      let (other, there) = find-erased fd j d m h in
      let u = v.deletable j d there in
      let back = swap-== fd j other in
      record {
        named = λ p e. let (own, s, q, n) = u.named p e in (own, (k own s n).0, q, (k own s n).1);
        rtp = λ p e. ap is_some (a p) ∙ rw (v.apart j fd p d c there found back e) (u.rtp p e);
        rtcp =
            λ p e. ap is_some (b p) ∙ rw (v.apart_rtcp j fd p d c there found back e) (u.rtcp p e);
        two = u.two;
        two_rtcp = u.two_rtcp;
      };
  apart = λ i j p d e g h. v.apart i j p d e (find-erased fd i d m g).1 (find-erased fd j e m h).1;
  apart_rtcp =
      λ i j p d e g h. v.apart_rtcp i j p d e (find-erased fd i d m g).1 (find-erased fd j e m h).1;
}

IsPending-erase :
    (fds : List ℕ) (fd : ℕ) (m : Connections)
    → is_listed fd fds ≡ false
    → IsPending fds m
    → IsPending fds (erase_connection fd m)
IsPending-erase [] fd m n h = refl
IsPending-erase (j ∷ fds) fd m n (fresh, (c, f), h) = (
  fresh,
  (c, ground (arith, find-erase_connection j fd m)),
  IsPending-erase fds fd m (ground arith) h,
)

abbrev pub holder : (RtspConnection → Bool) → Option RtspConnection → Bool
holder holds none = false
holder holds (some c) = holds c

-- One of the listed connections holds it.
abbrev pub held : (RtspConnection → Bool) → List ℕ → Connections → Bool
held holds [] m = false
held holds (fd ∷ fds) m = holder holds (find_connection fd m) || held holds fds m

held-erase :
    (holds : RtspConnection → Bool) (fds : List ℕ) (fd : ℕ) (m : Connections)
    → is_listed fd fds ≡ false
    → held holds fds (erase_connection fd m) ≡ held holds fds m
held-erase holds [] fd m n = refl
held-erase holds (j ∷ fds) fd m n =
    let other : (fd == j) ≡ false = ground (arith, n) in
    let same = find-erase_connection j fd m ∙ rw other refl in
    ap (λ o. holder holds o || held holds fds (erase_connection fd m)) same
    ∙ ap (λ b. holder holds (find_connection j m) || b)
        (held-erase holds fds fd m (ground (arith, n)))

held-step :
    (holds : RtspConnection → Bool) (fds : List ℕ) (fd : ℕ) (c : RtspConnection) (m : Connections)
    → is_listed fd fds ≡ false
    → find_connection fd m ≡ some c
    → (holds c || held holds fds (erase_connection fd m)) ≡ held holds (fd ∷ fds) m
held-step holds fds fd c m n f =
    ap (λ b. holds c || b) (held-erase holds fds fd m n)
    ∙ ap (λ o. holder holds o || held holds fds m) (sym f)

-- What is left of the connections and the world.
Deleted : List ℕ → Connections → World → Connections × World × Poller → Type 0
Deleted fds m w (m', w', poller') =
    ((k : ℕ) → find_connection k m' ≡ (if is_listed k fds then none else find_connection k m))
    × Freed (λ p. held (holds_rtp p) fds m) (λ p. held (holds_rtcp p) fds m) w w'
    × IsOwned m' w'

delete_all-Deleted :
    (fds : List ℕ) (m : Connections) (w : World) (poller : Poller)
    → IsPending fds m
    → IsOwned m w
    → Returns (Deleted fds m w) (delete_all fds m w poller)
unfolding Deleted Freed Keeps delete_all
delete_all-Deleted [] m w poller h v = (λ k. refl, (λ key s q. (s, q), λ p. refl, λ p. refl), v)
delete_all-Deleted (fd ∷ fds) m w poller (fresh, (c, f), h) v =
    let rest = erase_connection fd m in
    subst
      (λ o.
        Returns (Deleted (fd ∷ fds) m w)
          (do d ← o; (w', poller') ← delete_connection d w poller; delete_all fds rest w' poller'))
      (sym f)
      (Returns->>= (λ r. Freed (λ p. holds_rtp p c) (λ p. holds_rtcp p c) w r.0)
        (Deleted (fd ∷ fds) m w) (delete_connection c w poller) _
        (delete_connection-Freed c w (v.deletable fd c f) poller)
        (λ r gone.
          Returns-map {Q = Deleted (fd ∷ fds) m w} (delete_all fds rest r.0 r.1)
            (λ t (conns, freed, owned).
              let (kept, a, b) =
                Freed-trans (λ p. holds_rtp p c) (λ p. holds_rtcp p c)
                  (λ p. held (holds_rtp p) fds rest) (λ p. held (holds_rtcp p) fds rest) w r.0 t.1
                  gone freed in
              (
                λ k. ground (arith, conns k, find-erase_connection k fd m),
                (
                  kept,
                  λ p.
                      a p
                      ∙ ap (λ x. if x then none else w.instances p)
                          (held-step (holds_rtp p) fds fd c m fresh f),
                  λ p.
                      b p
                      ∙ ap (λ x. if x then none else w.rtcp_instances p)
                          (held-step (holds_rtcp p) fds fd c m fresh f),
                ),
                owned,
              ))
            (delete_all-Deleted fds rest r.0 r.1 (IsPending-erase fds fd m fresh h)
              (IsOwned-erase fd c m w r.0 f v gone))))

Ended : RtspServer → RtspServer → Type 0
Ended s s' =
    (s'.disconnected_list ≡ [])
    × Deleted s.disconnected_list s.connections s.world (s'.connections, s'.world, s'.poller)

handle_disconnection_list-Ended :
    (s : RtspServer)
    → IsPending s.disconnected_list s.connections
    → IsOwned s.connections s.world
    → Returns (Ended s) (handle_disconnection_list s)
unfolding handle_disconnection_list Ended Deleted Freed Keeps
handle_disconnection_list-Ended s h v =
    Returns->>= (Deleted s.disconnected_list s.connections s.world) _
      (delete_all s.disconnected_list s.connections s.world s.poller) _
      (delete_all-Deleted s.disconnected_list s.connections s.world s.poller h v) (λ r e. (refl, e))

handle_events-none :
    (n : ℕ) (s : RtspServer)
    → s.disconnected_list ≡ []
    → Returns
        (λ s'.
          (s'.disconnected_list ≡ [])
          × (s'.connections ≡ s.connections)
          × (s'.world ≡ s.world)
          × (s'.poller ≡ s.poller))
        (handle_events n s)
unfolding handle_events handle_disconnection_list delete_all
handle_events-none zero s e = (e, refl, refl, refl)
handle_events-none (suc n) s e =
    simp e (handle_events-none n (record s { disconnected_list = [] }) refl)

-- Where the server's event stands in the scheduler's list at least once, however often, handling
-- the events deletes the listed connections once, without a fault: the assert holds, and every
-- pointer that a destructor follows is to an instance. Then no event is left, the list is empty, a
-- listed socket is not found, and any other has the connection it had; the instances of the
-- deleted connections are gone, and any other is as it was, so that the connections that are left
-- still own theirs. The conditions: each listed socket is listed once and has a connection; and
-- the connections own their instances: each pointer is to an instance, no two pointers are to one,
-- and a connection with an RTP instance has a session that the server keeps.
pub handle_triggle_events_lem :
    (n fd p : ℕ) (s : RtspServer)
    → s.trigger_events ≡ suc n
    → IsPending s.disconnected_list s.connections
    → IsOwned s.connections s.world
    → Returns
        (λ s'.
          (s'.trigger_events ≡ 0)
          × (s'.disconnected_list ≡ [])
          × (find_connection fd s'.connections ≡ (
              if is_listed fd s.disconnected_list then none else find_connection fd s.connections))
          × (s'.world.instances p ≡ (
              if held (holds_rtp p) s.disconnected_list s.connections
              then none
              else s.world.instances p))
          × (s'.world.rtcp_instances p ≡ (
              if held (holds_rtcp p) s.disconnected_list s.connections
              then none
              else s.world.rtcp_instances p))
          × IsOwned s'.connections s'.world)
        (handle_triggle_events s)
unfolding handle_triggle_events handle_events Ended Deleted Freed Keeps
handle_triggle_events_lem n fd p s t h v = simp t (
    Returns->>= (Ended s) _ (handle_events (suc n) s) _
      (Returns->>= (Ended s) (Ended s) (handle_disconnection_list s) _
        (handle_disconnection_list-Ended s h v)
        (λ s1 e1.
          Returns-map {Q = Ended s} (handle_events n s1)
            (λ s2 e2. (
              e2.0,
              subst
                  (λ m. Deleted s.disconnected_list s.connections s.world (m, s2.world, s2.poller))
                  (sym e2.1)
                  (subst
                    (λ w.
                      Deleted s.disconnected_list s.connections s.world
                        (s1.connections, w, s2.poller))
                    (sym e2.2) e1.1),
            ))
            (handle_events-none n s1 e1.0)))
      (λ s2 (left, (conns, freed, owned)). (refl, left, conns fd, freed.1 p, freed.2 p, owned)))
