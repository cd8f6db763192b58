-- ===== src/Poller/Adding.antt =====
-- An event that is written and told to the poller, and one that is removed.
use my_rtsp_server.Prelude.{
  ℕ, ◌≡◌, refl, ap, subst, ◌∙◌, inl, inr, Option, none, some, List, ◌==◌, ==_iff, if◌then◌else◌,
  Bool-cases,
}
use my_rtsp_server.Poller.{
  Ctl, IoEvent, Poller, set_event, epoll_events, update_io_event, remove_io_event,
}
use my_rtsp_server.Poller.Interest.{
  IsEpoll, Reach, written, update_io_event-interest, update_io_event-other,
  remove_io_event-interest, remove_io_event-other,
}

-- The event `e` is written at `p`.
abbrev pub write_at : ℕ → IoEvent → Poller → Poller
write_at p e s = record s { io_events = set_event p e s.io_events }

pub write_at-here : (p : ℕ) (e : IoEvent) (s : Poller) → (write_at p e s).io_events p ≡ e
write_at-here p e s = rw ((==_iff p p).1 refl) refl

module _ {interest : List Ctl → ℕ → Option ℕ} (epoll : IsEpoll interest) where
  pub update-write_at-interest :
      (p k : ℕ) (e : IoEvent) (s : Poller)
      → Reach s
      → interest (update_io_event p (write_at p e s)).ctls k
        ≡ (if e.fd == k then some (epoll_events e) else interest s.ctls k)
  update-write_at-interest p k e s r =
      let s' = write_at p e s in
      let here = write_at-here p e s in
      elim (Bool-cases (e.fd == k)) [
        | inl same ↦
            let told : interest (update_io_event p s').ctls e.fd ≡ some (epoll_events e) =
              subst (λ d. interest (update_io_event p s').ctls d.fd ≡ some (epoll_events d)) here
                (update_io_event-interest epoll p (written s'.io_events r)) in
            rw same (
              subst (λ j. interest (update_io_event p s').ctls j ≡ some (epoll_events e))
                ((==_iff e.fd k).0 same) told)
        | inr other ↦
            rw other (update_io_event-other epoll p k s' (ap (λ d. d.fd == k) here ∙ other))
      ]

  pub remove_io_event-at :
      (p k fd : ℕ) (s : Poller)
      → Reach s
      → (s.io_events p).fd ≡ fd
      → interest (remove_io_event p s).1.ctls k ≡ (if fd == k then none else interest s.ctls k)
  remove_io_event-at p k fd s r own = elim (Bool-cases (fd == k)) [
    | inl same ↦ rw same (
        subst (λ j. interest (remove_io_event p s).1.ctls j ≡ none) (own ∙ (==_iff fd k).0 same)
          (remove_io_event-interest epoll p r))
    | inr other ↦ rw other (remove_io_event-other epoll p k s (ap (λ j. j == k) own ∙ other))
  ]
