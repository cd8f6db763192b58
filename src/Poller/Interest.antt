-- ===== src/Poller/Interest.antt =====
-- The descriptors that the poller has in its map are those that epoll waits for.
use my_rtsp_server.Prelude.{
  ℕ, ◌<◌, ◌≤◌, ◌≡◌, refl, sym, ap, subst, ◌∙◌, Bool, true, false, inl, inr, Option, none, some,
  List, [], ◌∷◌, ◌==◌, ==_iff, if◌then◌else◌, Bool-cases, length, arith,
}
use my_rtsp_server.Poller.{
  Ctl, ctl_add, ctl_mod, ctl_del, IoEvent, Poller, new, find_event, erase_event, epoll_events,
  update_found, update_io_event, remove_found, remove_io_event,
}

-- What `epoll_ctl` does, as its manual says: `interest cs fd` is the mask that `epoll` waits for at
-- `fd` behind the calls `cs`, `none` where it does not wait for `fd`.
pub record IsEpoll (interest : List Ctl → ℕ → Option ℕ) : Type 0 where
  pub at_first : (fd : ℕ) → interest [] fd ≡ none
  pub adds :
      (cs : List Ctl) (fd mask : ℕ)
      → interest cs fd ≡ none
      → interest (ctl_add fd mask ∷ cs) fd ≡ some mask
  pub modifies :
      (cs : List Ctl) (fd mask : ℕ) {old : ℕ}
      → interest cs fd ≡ some old
      → interest (ctl_mod fd mask ∷ cs) fd ≡ some mask
  pub deletes : (cs : List Ctl) (fd : ℕ) → interest (ctl_del fd ∷ cs) fd ≡ none
  pub add_other :
      (cs : List Ctl) (fd mask k : ℕ)
      → (k == fd) ≡ false
      → interest (ctl_add k mask ∷ cs) fd ≡ interest cs fd
  pub mod_other :
      (cs : List Ctl) (fd mask k : ℕ)
      → (k == fd) ≡ false
      → interest (ctl_mod k mask ∷ cs) fd ≡ interest cs fd
  pub del_other :
      (cs : List Ctl) (fd k : ℕ) → (k == fd) ≡ false → interest (ctl_del k ∷ cs) fd ≡ interest cs fd

-- The states of a poller. The memory of the events is the program's.
pub data Reach : Poller → Type 0 where
  start : (io_events : ℕ → IoEvent) → Reach (new io_events)
  updated : {s : Poller} (p : ℕ) → Reach s → Reach (update_io_event p s)
  removed : {s : Poller} (p : ℕ) → Reach s → Reach (remove_io_event p s).1
  written :
      {s : Poller} (io_events : ℕ → IoEvent) → Reach s → Reach (record s { io_events = io_events })

abbrev pub is_some {ℓ} : {A : Type ℓ} → Option A → Bool
is_some none = false
is_some (some _) = true

pub is_some-some {ℓ} : {A : Type ℓ} (o : Option A) → is_some o ≡ true → (a : A) × (o ≡ some a)
is_some-some none h = cc
is_some-some (some a) h = (a, refl)

is_some-none {ℓ} : {A : Type ℓ} (o : Option A) → is_some o ≡ false → o ≡ none
is_some-none none h = refl
is_some-none (some a) h = cc

find_event-erase :
    (fd k : ℕ) (m : List (ℕ × ℕ))
    → find_event fd (erase_event k m) ≡ (if k == fd then none else find_event fd m)
unfolding find_event erase_event
find_event-erase fd k [] = ground arith
find_event-erase fd k ((j, p) ∷ m) = ground (arith, find_event-erase fd k m)

length-erase_event : (k : ℕ) (m : List (ℕ × ℕ)) → length (erase_event k m) ≤ length m
unfolding erase_event
length-erase_event k [] = omega arith
length-erase_event k ((j, p) ∷ m) = ground (arith, length-erase_event k m)

update_found-io_events :
    (found : Option ℕ) (fd mask p : ℕ) (s : Poller)
    → (update_found found fd mask p s).io_events ≡ s.io_events
unfolding update_found
update_found-io_events none fd mask p s = refl
update_found-io_events (some q) fd mask p s = refl

pub update_io_event-io_events : (p : ℕ) (s : Poller) → (update_io_event p s).io_events ≡ s.io_events
unfolding update_io_event
update_io_event-io_events p s =
    let e = s.io_events p in
    update_found-io_events (find_event e.fd s.event_map) e.fd (epoll_events e) p s

remove_found-io_events :
    (found : Option ℕ) (fd : ℕ) (s : Poller) → (remove_found found fd s).1.io_events ≡ s.io_events
unfolding remove_found
remove_found-io_events none fd s = refl
remove_found-io_events (some q) fd s = refl

pub remove_io_event-io_events :
    (p : ℕ) (s : Poller) → (remove_io_event p s).1.io_events ≡ s.io_events
unfolding remove_io_event
remove_io_event-io_events p s =
    let fd = (s.io_events p).fd in remove_found-io_events (find_event fd s.event_map) fd s

module _ {interest : List Ctl → ℕ → Option ℕ} (epoll : IsEpoll interest) where
  -- `epoll` waits for the descriptors of the map, and the list has room for one event of each.
  record IsInStep (s : Poller) : Type 0 where
    same_fds : (fd : ℕ) → is_some (interest s.ctls fd) ≡ is_some (find_event fd s.event_map)
    room : length s.event_map < s.event_lists_size

  update_found-IsInStep :
      (found : Option ℕ) (fd mask p : ℕ) (s : Poller)
      → find_event fd s.event_map ≡ found
      → IsInStep s
      → IsInStep (update_found found fd mask p s)
  unfolding update_found find_event
  update_found-IsInStep none fd mask p s e v =
      let absent = is_some-none (interest s.ctls fd) (v.same_fds fd ∙ ap is_some e) in
      record {
        same_fds = λ k. elim (Bool-cases (fd == k)) [
          | inl h ↦
              let added =
                subst (λ k. interest (ctl_add fd mask ∷ s.ctls) k ≡ some mask) ((==_iff fd k).0 h)
                  (epoll.adds s.ctls fd mask absent) in
              rw (h, added) refl
          | inr h ↦ rw (h, epoll.add_other s.ctls k mask fd h) (v.same_fds k)
        ];
        room = ground (arith, v.room);
      }
  update_found-IsInStep (some q) fd mask p s e v =
      let (old, present) = is_some-some (interest s.ctls fd) (v.same_fds fd ∙ ap is_some e) in
      record {
        same_fds = λ k. elim (Bool-cases (fd == k)) [
          | inl h ↦
              subst
                (λ k.
                  is_some (interest (ctl_mod fd mask ∷ s.ctls) k)
                  ≡ is_some (find_event k s.event_map))
                ((==_iff fd k).0 h)
                (ap is_some (epoll.modifies s.ctls fd mask present) ∙ ap is_some (sym e))
          | inr h ↦ rw (epoll.mod_other s.ctls k mask fd h) (v.same_fds k)
        ];
        room = v.room;
      }

  remove_found-IsInStep :
      (found : Option ℕ) (fd : ℕ) (s : Poller) → IsInStep s → IsInStep (remove_found found fd s).1
  unfolding remove_found
  remove_found-IsInStep none fd s v = v
  remove_found-IsInStep (some q) fd s v = record {
    same_fds = λ k. elim (Bool-cases (fd == k)) [
      | inl h ↦
          let deleted =
            subst (λ k. interest (ctl_del fd ∷ s.ctls) k ≡ none) ((==_iff fd k).0 h)
              (epoll.deletes s.ctls fd) in
          simp (deleted, find_event-erase k fd s.event_map, h) refl
      | inr h ↦
          simp (epoll.del_other s.ctls k fd h, find_event-erase k fd s.event_map, h) (v.same_fds k)
    ];
    room = omega (arith, v.room, length-erase_event fd s.event_map);
  }

  Reach-IsInStep : {s : Poller} → Reach s → IsInStep s
  unfolding new update_io_event remove_io_event find_event
  Reach-IsInStep (start io_events) = record {
    same_fds = λ fd. ap is_some (epoll.at_first fd);
    room = omega arith;
  }
  Reach-IsInStep (updated {s = s} p r) =
      let fd = (s.io_events p).fd in
      update_found-IsInStep (find_event fd s.event_map) fd (epoll_events (s.io_events p)) p s refl
        (Reach-IsInStep r)
  Reach-IsInStep (removed {s = s} p r) =
      let fd = (s.io_events p).fd in
      remove_found-IsInStep (find_event fd s.event_map) fd s (Reach-IsInStep r)
  Reach-IsInStep (written io_events r) =
      let v = Reach-IsInStep r in record { same_fds = v.same_fds; room = v.room }

  -- In every state of the poller, `epoll` waits for a descriptor exactly if the map has it, and
  -- the list for the results is longer than the map. The condition is that `epoll_ctl` does what
  -- it documents.
  pub Reach-interest :
      {s : Poller} (fd : ℕ)
      → Reach s
      → (is_some (interest s.ctls fd) ≡ is_some (find_event fd s.event_map))
        × (length s.event_map < s.event_lists_size)
  Reach-interest fd r = let v = Reach-IsInStep r in (v.same_fds fd, v.room)

  update_found-interest :
      (found : Option ℕ) (fd mask p : ℕ) (s : Poller)
      → find_event fd s.event_map ≡ found
      → is_some (interest s.ctls fd) ≡ is_some (find_event fd s.event_map)
      → interest (update_found found fd mask p s).ctls fd ≡ some mask
  unfolding update_found
  update_found-interest none fd mask p s e same =
      epoll.adds s.ctls fd mask (is_some-none (interest s.ctls fd) (same ∙ ap is_some e))
  update_found-interest (some q) fd mask p s e same =
      let (old, present) = is_some-some (interest s.ctls fd) (same ∙ ap is_some e) in
      epoll.modifies s.ctls fd mask present

  -- `UpdateIOEvent` tells `epoll` the flags of the event.
  pub update_io_event-interest :
      {s : Poller} (p : ℕ)
      → Reach s
      → interest (update_io_event p s).ctls (s.io_events p).fd ≡ some (epoll_events (s.io_events p))
  unfolding update_io_event
  update_io_event-interest {s} p r =
      let fd = (s.io_events p).fd in
      update_found-interest (find_event fd s.event_map) fd (epoll_events (s.io_events p)) p s refl
        (Reach-interest fd r).0

  update_found-other :
      (found : Option ℕ) (fd k mask p : ℕ) (s : Poller)
      → (fd == k) ≡ false
      → interest (update_found found fd mask p s).ctls k ≡ interest s.ctls k
  unfolding update_found
  update_found-other none fd k mask p s h = epoll.add_other s.ctls k mask fd h
  update_found-other (some q) fd k mask p s h = epoll.mod_other s.ctls k mask fd h

  pub update_io_event-other :
      (p k : ℕ) (s : Poller)
      → ((s.io_events p).fd == k) ≡ false
      → interest (update_io_event p s).ctls k ≡ interest s.ctls k
  unfolding update_io_event
  update_io_event-other p k s h =
      let e = s.io_events p in
      update_found-other (find_event e.fd s.event_map) e.fd k (epoll_events e) p s h

  remove_found-other :
      (found : Option ℕ) (fd k : ℕ) (s : Poller)
      → (fd == k) ≡ false
      → interest (remove_found found fd s).1.ctls k ≡ interest s.ctls k
  unfolding remove_found
  remove_found-other none fd k s h = refl
  remove_found-other (some q) fd k s h = epoll.del_other s.ctls k fd h

  pub remove_io_event-other :
      (p k : ℕ) (s : Poller)
      → ((s.io_events p).fd == k) ≡ false
      → interest (remove_io_event p s).1.ctls k ≡ interest s.ctls k
  unfolding remove_io_event
  remove_io_event-other p k s h =
      let fd = (s.io_events p).fd in remove_found-other (find_event fd s.event_map) fd k s h

  remove_found-interest :
      (found : Option ℕ) (fd : ℕ) (s : Poller)
      → is_some (interest s.ctls fd) ≡ is_some found
      → interest (remove_found found fd s).1.ctls fd ≡ none
  unfolding remove_found
  remove_found-interest none fd s same = is_some-none (interest s.ctls fd) same
  remove_found-interest (some q) fd s same = epoll.deletes s.ctls fd

  -- `RemoveIOEvent` ends the wait for the descriptor.
  pub remove_io_event-interest :
      {s : Poller} (p : ℕ)
      → Reach s
      → interest (remove_io_event p s).1.ctls (s.io_events p).fd ≡ none
  unfolding remove_io_event
  remove_io_event-interest {s} p r =
      let fd = (s.io_events p).fd in
      remove_found-interest (find_event fd s.event_map) fd s (Reach-interest fd r).0
