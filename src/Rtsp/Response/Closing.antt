-- ===== src/Rtsp/Response/Closing.antt =====
-- From SETUP over the connection's own socket to the destructors that close it.
use my_rtsp_server.Prelude.{
  ℕ, ◌<◌, ◌≡◌, refl, sym, ap, ◌∙◌, Bool, true, false, not, Option, none, some, List, ◌∷◌, ◌==◌,
  ==_iff, subst, length, inl, inr, Returns, Returns-map,
}
use my_rtsp_server.Poller.{Poller}
use my_rtsp_server.Rtp.Instance.{new_over_tcp, set_session_id}
use my_rtsp_server.Session.{
  TrackId, track_id_none, track_id0, track_id1, MediaSession, add_rtp_instance,
}
use my_rtsp_server.Rtsp.{RtspConnection}
use my_rtsp_server.Rtsp.Scan.{scan_set}
use my_rtsp_server.Rtsp.World.{World, lookup_media_session, lookup-update_session-some}
use my_rtsp_server.Rtsp.Answer.{Env}
use my_rtsp_server.Rtsp.Response.{
  rtp_at, rtcp_at, put_instances, is_some, setup_tcp, setup_track, handle_cmd_setup,
  delete_rtp_instance, delete_rtcp_instance, release_track, destroy, delete_connection,
}
use my_rtsp_server.Rtsp.Response.Messages.{CanAnswer}
use my_rtsp_server.Rtsp.Response.Setup.{tcp_instance, handle_cmd_setup-setup_track}
use my_rtsp_server.Rtsp.Response.Settled.{
  IsBare, Settled, set_up, SetUpAll, setup_tcp-SetUpAll, HasOnly, put_instances-HasOnly,
  put_instances-CanAnswer,
}

-- The instance at `p` is gone, and the descriptor has been closed twice.
abbrev pub ClosedTwice : ℕ → ℕ → List ℕ → World × Poller → Type 0
ClosedTwice fd p closed (w, poller) = (w.closed ≡ fd ∷ fd ∷ closed) × (w.instances p ≡ none)

put_instances-same :
    (id : TrackId) (rtp rtcp : Option ℕ) (c : RtspConnection)
    → ((put_instances id rtp rtcp c).sock_fd ≡ c.sock_fd)
      × ((put_instances id rtp rtcp c).session ≡ c.session)
unfolding put_instances
put_instances-same track_id_none rtp rtcp c = (refl, refl)
put_instances-same track_id0 rtp rtcp c = (refl, refl)
put_instances-same track_id1 rtp rtcp c = (refl, refl)

delete_connection-HasOnly :
    (env : Env) (own : List ℕ) (s : MediaSession) (p : ℕ) (c c1 : RtspConnection) (w : World)
    (poller : Poller)
    → HasOnly p c1
    → c1.sock_fd ≡ c.sock_fd
    → c1.session ≡ some own
    → lookup_media_session own w.sessions ≡ some s
    → w.instances p ≡ some (tcp_instance env c)
    → Returns (ClosedTwice c.sock_fd p w.closed) (delete_connection c1 w poller)
unfolding delete_connection destroy release_track delete_rtp_instance delete_rtcp_instance
    set_session_id new_over_tcp
delete_connection-HasOnly env own s p c c1 w poller (inl (a, b), d, e) fd q known at =
    simp (a, b, d, e, q, known, at, fd) (refl, rw ((==_iff p p).1 refl) refl)
delete_connection-HasOnly env own s p c c1 w poller (inr (a, b), d, e) fd q known at =
    simp (a, b, d, e, q, known, at, fd) (refl, rw ((==_iff p p).1 refl) refl)

-- A connection over TCP closes its socket twice. A connection that has no instance asks for a
-- track over its own socket: SETUP succeeds, and when the connection is deleted then, nothing
-- faults, the new instance is gone, and the destructors have closed the connection's socket two
-- times, the instance's first and then the connection's, and nothing else. The conditions: the URL
-- names a session that the server keeps, in fewer than 100 bytes; the connection has described a
-- session that the server keeps and that is not multicast, uses RTP over TCP, and can answer
-- (`realloc` does what it documents, its output buffer is valid, empty and has its write index
-- low, and the next write takes some bytes).
pub handle_cmd_setup-delete_connection :
    (env : Env) (name rest own : List ℕ) (s described : MediaSession) (c : RtspConnection)
    (w : World) (poller : Poller) (n : ℕ)
    → CanAnswer env c n
    → scan_set (λ x. not (x == b'/')) c.suffix ≡ some (name, rest)
    → length name < 100
    → lookup_media_session name w.sessions ≡ some s
    → rtp_at c.track_id c ≡ some none
    → rtcp_at c.track_id c ≡ some none
    → IsBare c
    → c.session ≡ some own
    → lookup_media_session own w.sessions ≡ some described
    → described.is_start_multicast ≡ false
    → c.is_rtp_over_tcp ≡ true
    → Returns
        (λ (done, c1, w1).
          (done ≡ true)
          × Returns (ClosedTwice c.sock_fd w.next w.closed) (delete_connection c1 w1 poller))
        (handle_cmd_setup env c w)
unfolding setup_track is_some Settled SetUpAll
handle_cmd_setup-delete_connection env name rest own s described c w poller n r scanned short found
      known known' bare mine is_known single tcp =
    let Closes : Bool × RtspConnection × World → Type 0 = λ (done, c1, w1).
      (done ≡ true)
      × Returns (ClosedTwice c.sock_fd w.next w.closed) (delete_connection c1 w1 poller) in
    let cp = put_instances c.track_id (some w.next) none c in
    let (fd, same) = put_instances-same c.track_id (some w.next) none c in
    let only = put_instances-HasOnly c.track_id w.next c known bare in
    let (s', kept) =
      lookup-update_session-some name own (add_rtp_instance c.track_id w.next s).1 s described
        w.sessions found is_known in
    subst (Returns Closes)
      (sym (handle_cmd_setup-setup_track env name rest s c w scanned short found))
      (simp (known, known', mine, is_known, single, tcp)
        (Returns-map (setup_tcp env name s c w)
          (λ (done, c1, w1) h. (
            h.0.0,
            subst
                (λ (v : World).
                  Returns (ClosedTwice c.sock_fd w.next w.closed) (delete_connection c1 v poller))
                (sym h.1)
                (delete_connection-HasOnly env own s' w.next c c1 (set_up env name s c w) poller
                  (subst (HasOnly w.next) (sym h.0.1) only)
                  (ap (λ (d : RtspConnection). d.sock_fd) h.0.1 ∙ fd)
                  (ap (λ (d : RtspConnection). d.session) h.0.1 ∙ same ∙ mine) kept
                  (rw ((==_iff w.next w.next).1 refl) refl)),
          ))
          (setup_tcp-SetUpAll env name s c w n
            (put_instances-CanAnswer env c.track_id (some w.next) c n r))))
