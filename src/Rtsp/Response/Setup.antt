-- ===== src/Rtsp/Response/Setup.antt =====
-- SETUP over the connection's own socket.
use my_rtsp_server.Prelude.{
  ℕ, ◌+◌, ◌<◌, ◌≡◌, refl, sym, ap, ◌∙◌, Bool, true, false, not, Option, none, some, List, ◌++◌,
  arith, subst, ◌==◌, ==_iff, lt→ltb, ◌>>◌, assert, length, Returns, Returns->>=, ◌^◌,
}
use my_rtsp_server.Prelude.Text.{bytes_eq_refl}
use my_rtsp_server.Buffer
use my_rtsp_server.Buffer.{Buffer, peek}
use my_rtsp_server.Buffer.Contents.{IsValid, Holds, append_lem}
use my_rtsp_server.Rtp.Instance.{RtpInstance, new_over_tcp, set_session_id}
use my_rtsp_server.Session.{
  TrackId, track_id_none, track_id0, track_id1, MediaSession, add_rtp_instance,
}
use my_rtsp_server.Rtsp.{RtspConnection}
use my_rtsp_server.Rtsp.Scan.{scan_set}
use my_rtsp_server.Rtsp.World.{World, lookup_media_session, lookup-update_session}
use my_rtsp_server.Rtsp.Answer.{Env, message_buffer, send_message, reply}
use my_rtsp_server.Rtsp.Response.{
  rtp_at, rtcp_at, put_instances, is_some, setup_tcp, setup_track, setup_found, setup_named,
  handle_cmd_setup,
}
use my_rtsp_server.Rtsp.Response.Messages.{CanAnswer, Answered, send_message-Answered, message_fits}

pub Returns-× :
    {A : Type 0} (P Q : A → Type 0) (o : Option A)
    → Returns P o
    → Returns Q o
    → Returns (λ a. P a × Q a) o
Returns-× P Q none p q = p
Returns-× P Q (some a) p q = (p, q)

-- An answer changes the output buffer and what was sent.
unfoldable pub Kept : RtspConnection → Bool × RtspConnection → Type 0
Kept c (done, c') = c' ≡ record c { output_buffer = c'.output_buffer; sent = c'.sent }

pub send_message-Kept :
    (env : Env) (text : List ℕ) (c : RtspConnection) (n : ℕ)
    → CanAnswer env c n
    → length text < 2048
    → Returns (Kept c) (send_message env text c)
unfolding send_message Kept
send_message-Kept env text c n r l =
    Returns->>= (Holds (peek c.output_buffer ++ text)) (Kept c)
      (Buffer.append env.realloc text c.output_buffer) _
      (append_lem env.realloc r.allocates text r.valid (omega (arith, l, r.low))) (λ b held. refl)

-- Who sends over the connection of `c`.
abbrev pub tcp_instance : Env → RtspConnection → RtpInstance
tcp_instance env c =
    set_session_id c.session_id
      (new_over_tcp c.sock_fd c.rtp_channel env.unset_port env.unset_address)

-- What SETUP leaves: the connection points to the new instance, the instance is there, and the
-- session has it.
abbrev pub SetUp :
    Env → List ℕ → MediaSession → RtspConnection → World → Bool × RtspConnection × World → Type 0
SetUp env name s c w (done, c', w') =
    (done ≡ true)
    × (rtp_at c.track_id c' ≡ some (some w.next))
    × (w'.instances w.next ≡ some (tcp_instance env c))
    × (lookup_media_session name w'.sessions ≡ some (add_rtp_instance c.track_id w.next s).1)

pub rtp_at-answered :
    (id : TrackId) (c : RtspConnection) (b : Buffer) (sent : List ℕ)
    → rtp_at id (record c { output_buffer = b; sent = sent }) ≡ rtp_at id c
rtp_at-answered track_id_none c b sent = refl
rtp_at-answered track_id0 c b sent = refl
rtp_at-answered track_id1 c b sent = refl

pub rtp_at-put_instances :
    (id : TrackId) (rtp rtcp : Option ℕ) (c : RtspConnection) {old : Option ℕ}
    → rtp_at id c ≡ some old
    → rtp_at id (put_instances id rtp rtcp c) ≡ some rtp
unfolding put_instances
rtp_at-put_instances track_id_none rtp rtcp c h = cc
rtp_at-put_instances track_id0 rtp rtcp c h = refl
rtp_at-put_instances track_id1 rtp rtcp c h = refl

pub put_instances-output_buffer :
    (id : TrackId) (rtp rtcp : Option ℕ) (c : RtspConnection)
    → (put_instances id rtp rtcp c).output_buffer ≡ c.output_buffer
unfolding put_instances
put_instances-output_buffer track_id_none rtp rtcp c = refl
put_instances-output_buffer track_id0 rtp rtcp c = refl
put_instances-output_buffer track_id1 rtp rtcp c = refl

reply-SetUp :
    (env : Env) (text name : List ℕ) (s t : MediaSession) (c c1 : RtspConnection) (w w1 : World)
    (n : ℕ)
    → CanAnswer env c1 n
    → rtp_at c.track_id c1 ≡ some (some w.next)
    → w1.instances w.next ≡ some (tcp_instance env c)
    → lookup_media_session name w1.sessions ≡ some (add_rtp_instance c.track_id w.next s).1
    → Returns (SetUp env name s c w) (reply env text c1 w1)
unfolding reply Answered Kept
reply-SetUp env text name s t c c1 w w1 n r a b d =
    Returns->>= (λ q. Answered c1 (message_buffer text) n q × Kept c1 q) (SetUp env name s c w)
      (send_message env (message_buffer text) c1) _
      (Returns-× (Answered c1 (message_buffer text) n) (Kept c1)
        (send_message env (message_buffer text) c1)
        (send_message-Answered env (message_buffer text) c1 n r (message_fits text))
        (send_message-Kept env (message_buffer text) c1 n r (message_fits text)))
      (λ q k. (
        k.0.0,
        ap (rtp_at c.track_id) k.1 ∙ rtp_at-answered c.track_id c1 q.1.output_buffer q.1.sent ∙ a,
        b,
        d,
      ))

setup_tcp-SetUp :
    (env : Env) (name : List ℕ) (s : MediaSession) (c : RtspConnection) (w : World) (n : ℕ)
    → CanAnswer env c n
    → rtp_at c.track_id c ≡ some none
    → lookup_media_session name w.sessions ≡ some s
    → Returns (SetUp env name s c w) (setup_tcp env name s c w)
unfolding setup_tcp
setup_tcp-SetUp env name s c w n r free found =
    let c1 = put_instances c.track_id (some w.next) none c in
    let same = put_instances-output_buffer c.track_id (some w.next) none c in
    let ready : CanAnswer env c1 n = record {
      allocates = r.allocates;
      valid = subst (λ b. IsValid b) (sym same) r.valid;
      drained = ap peek same ∙ r.drained;
      low = subst (λ (b : Buffer). b.write_index + 2048 < 2 ^ 32) (sym same) r.low;
      takes = r.takes;
    } in
    reply-SetUp env _ name s s c c1 w _ n ready
      (rtp_at-put_instances c.track_id (some w.next) none c free)
      (rw ((==_iff w.next w.next).1 refl) refl)
      (lookup-update_session name name (add_rtp_instance c.track_id w.next s).1 s w.sessions found
        ∙ rw (bytes_eq_refl name) refl)

pub handle_cmd_setup-setup_track :
    (env : Env) (name rest : List ℕ) (s : MediaSession) (c : RtspConnection) (w : World)
    → scan_set (λ x. not (x == b'/')) c.suffix ≡ some (name, rest)
    → length name < 100
    → lookup_media_session name w.sessions ≡ some s
    → handle_cmd_setup env c w ≡ setup_track env name s c w
unfolding handle_cmd_setup setup_named setup_found
handle_cmd_setup-setup_track env name rest s c w scanned short found =
    ap (λ o. setup_named env o c w) scanned
    ∙ ap (λ b. assert b >> setup_found env name (lookup_media_session name w.sessions) c w)
        (lt→ltb (length name) 100 short)
    ∙ ap (λ o. setup_found env name o c w) found

-- SETUP over the connection's own socket, of a track that the connection has no instance of yet,
-- succeeds: the connection then points to a new instance, which is there with the connection's
-- socket, channel and session id, and is not alive; and the session of the URL is as
-- `AddRtpInstance` with it leaves it. The conditions: the URL names a session in fewer than 100
-- bytes, the connection has described a session that is not multicast, asks for a track of the
-- two, uses RTP over TCP, and can answer (`realloc` does what it documents, its output buffer is
-- valid, empty and has its write index low, and the next write takes some bytes).
pub handle_cmd_setup_tcp :
    (env : Env) (name rest own : List ℕ) (s described : MediaSession) (c : RtspConnection)
    (w : World) (n : ℕ)
    → CanAnswer env c n
    → scan_set (λ x. not (x == b'/')) c.suffix ≡ some (name, rest)
    → length name < 100
    → lookup_media_session name w.sessions ≡ some s
    → rtp_at c.track_id c ≡ some none
    → rtcp_at c.track_id c ≡ some none
    → c.session ≡ some own
    → lookup_media_session own w.sessions ≡ some described
    → described.is_start_multicast ≡ false
    → c.is_rtp_over_tcp ≡ true
    → Returns (SetUp env name s c w) (handle_cmd_setup env c w)
unfolding setup_track is_some
handle_cmd_setup_tcp env name rest own s described c w n r scanned short found free free' mine known
      single tcp =
    subst (Returns (SetUp env name s c w))
      (sym (handle_cmd_setup-setup_track env name rest s c w scanned short found))
      (simp (free, free', mine, known, single, tcp) (setup_tcp-SetUp env name s c w n r free found))
