-- ===== src/Rtsp/Response/Settled.antt =====
-- What an answer and the waking leave of a connection with one instance.
use my_rtsp_server.Prelude.{
  ℕ, suc, ◌≡◌, refl, Bool, true, Option, none, some, List, [], ◌++◌, arith, ◌⊎◌, inl, inr, Returns,
  Returns->>=, Returns-map,
}
use my_rtsp_server.Buffer
use my_rtsp_server.Buffer.{Buffer, peek}
use my_rtsp_server.Buffer.Contents.{IsValid, Holds, append_lem, write_index-retrieve_all}
use my_rtsp_server.Rtp.Instance.{RtpInstance, set_alive}
use my_rtsp_server.Session.{
  TrackId, track_id_none, track_id0, track_id1, MediaSession, add_rtp_instance,
}
use my_rtsp_server.Rtsp.{RtspConnection}
use my_rtsp_server.Rtsp.World.{World, update_session, update}
use my_rtsp_server.Rtsp.Answer.{Env, message_buffer, send_message, reply}
use my_rtsp_server.Rtsp.Response.{rtp_at, put_instances, setup_tcp, wake_rtp, wake_rtcp, wake_all}
use my_rtsp_server.Rtsp.Response.Messages.{CanAnswer, Answered, send_message-Answered, message_fits}
use my_rtsp_server.Rtsp.Response.Setup.{Kept, Returns-×, send_message-Kept, tcp_instance}

-- The connection has no instance.
pub record IsBare (c : RtspConnection) : Type 0 where
  pub rtp0 : c.rtp0 ≡ none
  pub rtp1 : c.rtp1 ≡ none
  pub rtcp0 : c.rtcp0 ≡ none
  pub rtcp1 : c.rtcp1 ≡ none

-- What an answer leaves of a connection: it can answer again.
unfoldable pub Settled : RtspConnection → Bool × RtspConnection → Type 0
Settled c (done, c') =
    (done ≡ true)
    × (c' ≡ record c { output_buffer = c'.output_buffer; sent = c'.sent })
    × IsValid c'.output_buffer
    × (peek c'.output_buffer ≡ [])
    × (c'.output_buffer.write_index ≡ 0)

Lowered : Bool × RtspConnection → Type 0
Lowered (done, c') = c'.output_buffer.write_index ≡ 0

pub send_message-Settled :
    (env : Env) (text : List ℕ) (c : RtspConnection) (n : ℕ)
    → CanAnswer env c n
    → Returns (Settled c) (send_message env (message_buffer text) c)
unfolding Settled Answered Kept Lowered send_message
send_message-Settled env text c n r =
    let m = message_buffer text in
    let sent = send_message env m c in
    let lowered : Returns Lowered sent =
      Returns->>= (Holds (peek c.output_buffer ++ m)) Lowered
        (Buffer.append env.realloc m c.output_buffer) _
        (append_lem env.realloc r.allocates m r.valid (omega (arith, message_fits text, r.low)))
        (λ b held. write_index-retrieve_all b) in
    Returns-map sent (λ q h. (h.0.0, h.1.0, h.0.2, h.0.3, h.1.1))
      (Returns-× (Answered c m n) (λ q. Kept c q × Lowered q) sent
        (send_message-Answered env m c n r (message_fits text))
        (Returns-× (Kept c) Lowered sent (send_message-Kept env m c n r (message_fits text))
          lowered))

-- The world behind SETUP of a track of the session `s`.
abbrev pub set_up : Env → List ℕ → MediaSession → RtspConnection → World → World
set_up env name s c w = record w {
  sessions = update_session name (add_rtp_instance c.track_id w.next s).1 w.sessions;
  instances = update w.next (some (tcp_instance env c)) w.instances;
  next = suc w.next;
}

unfoldable pub SetUpAll :
    Env → List ℕ → MediaSession → RtspConnection → World → Bool × RtspConnection × World → Type 0
SetUpAll env name s c w (done, c', w') =
    Settled (put_instances c.track_id (some w.next) none c) (done, c')
    × (w' ≡ set_up env name s c w)

pub setup_tcp-SetUpAll :
    (env : Env) (name : List ℕ) (s : MediaSession) (c : RtspConnection) (w : World) (n : ℕ)
    → CanAnswer env (put_instances c.track_id (some w.next) none c) n
    → Returns (SetUpAll env name s c w) (setup_tcp env name s c w)
unfolding setup_tcp reply SetUpAll
setup_tcp-SetUpAll env name s c w n r =
    let c1 = put_instances c.track_id (some w.next) none c in
    Returns->>= (Settled c1) (SetUpAll env name s c w) (send_message env (message_buffer _) c1) _
      (send_message-Settled env _ c1 n r) (λ q settled. (settled, refl))

pub put_instances-CanAnswer :
    (env : Env) (id : TrackId) (rtp : Option ℕ) (c : RtspConnection) (n : ℕ)
    → CanAnswer env c n
    → CanAnswer env (put_instances id rtp none c) n
unfolding put_instances
put_instances-CanAnswer env track_id_none rtp c n r = r
put_instances-CanAnswer env track_id0 rtp c n r = record {
  allocates = r.allocates;
  valid = r.valid;
  drained = r.drained;
  low = r.low;
  takes = r.takes;
}
put_instances-CanAnswer env track_id1 rtp c n r = record {
  allocates = r.allocates;
  valid = r.valid;
  drained = r.drained;
  low = r.low;
  takes = r.takes;
}

-- The connection's only instance is at `p`.
abbrev pub HasOnly : ℕ → RtspConnection → Type 0
HasOnly p c =
    (((c.rtp0 ≡ some p) × (c.rtp1 ≡ none)) ⊎ ((c.rtp0 ≡ none) × (c.rtp1 ≡ some p)))
    × (c.rtcp0 ≡ none)
    × (c.rtcp1 ≡ none)

pub wake_all-HasOnly :
    (p : ℕ) (i : RtpInstance) (c : RtspConnection) (w : World)
    → HasOnly p c
    → w.instances p ≡ some i
    → wake_all c w ≡ some (record w { instances = update p (some (set_alive true i)) w.instances })
unfolding wake_all wake_rtp wake_rtcp
wake_all-HasOnly p i c w (inl (a, b), d, e) h = simp (a, b, d, e, h) refl
wake_all-HasOnly p i c w (inr (a, b), d, e) h = simp (a, b, d, e, h) refl

pub put_instances-HasOnly :
    (id : TrackId) (p : ℕ) (c : RtspConnection)
    → rtp_at id c ≡ some none
    → IsBare c
    → HasOnly p (put_instances id (some p) none c)
unfolding put_instances
put_instances-HasOnly track_id_none p c known bare = cc
put_instances-HasOnly track_id0 p c known bare = (inl (refl, bare.rtp1), refl, bare.rtcp1)
put_instances-HasOnly track_id1 p c known bare = (inr (bare.rtp0, refl), bare.rtcp0, refl)
