-- ===== src/Rtsp/Response/Messages.antt =====
-- What an answer does: `SendMessage`, and the handlers of PAUSE and PLAY.
use mathlib.Core.Option
use my_rtsp_server.Prelude.{
  ℕ, ◌+◌, ◌<◌, ◌^◌, ◌≡◌, refl, sym, ap, ◌∙◌, Bool, true, false, Option, none, some, List, [], ◌++◌,
  arith, subst, Bool-cases, inl, inr, ==_iff, ◌==◌, if◌then◌else◌, length, take, Returns,
  Returns->>=, Returns-map,
}
use my_rtsp_server.Prelude.Text.{length-print_more}
use my_rtsp_server.Buffer
use my_rtsp_server.Buffer.{Buffer, peek}
use my_rtsp_server.Buffer.Contents.{
  IsValid, IsRealloc, Holds, append_lem, retrieve_all-Holds, write_lem,
}
use my_rtsp_server.Rtp.Instance.{RtpInstance, set_alive}
use my_rtsp_server.Rtsp.{RtspConnection}
use my_rtsp_server.Rtsp.World.{World, update}
use my_rtsp_server.Rtsp.Answer.{Env, message_buffer, send_message, reply}
use my_rtsp_server.Rtsp.Response.{
  bare_reply, handle_cmd_pause, play_text, wake_rtp, wake_rtcp, wake_all, handle_cmd_play,
}

-- The socket takes `n` bytes of the next write, and the output buffer is as an answer leaves it.
pub record CanAnswer (env : Env) (c : RtspConnection) (n : ℕ) : Type 0 where
  pub allocates : IsRealloc env.realloc
  pub valid : IsValid c.output_buffer
  pub drained : peek c.output_buffer ≡ []
  pub low : c.output_buffer.write_index + 2048 < 2 ^ 32
  pub takes : env.wrote ≡ some n

unfoldable pub Answered : RtspConnection → List ℕ → ℕ → Bool × RtspConnection → Type 0
Answered c text n (done, c') =
    (done ≡ true)
    × (c'.sent ≡ c.sent ++ take n text)
    × IsValid c'.output_buffer
    × (peek c'.output_buffer ≡ [])

pub send_message-Answered :
    (env : Env) (text : List ℕ) (c : RtspConnection) (n : ℕ)
    → CanAnswer env c n
    → length text < 2048
    → Returns (Answered c text n) (send_message env text c)
unfolding send_message Answered
send_message-Answered env text c n r l =
    Returns->>= (Holds (peek c.output_buffer ++ text)) (Answered c text n)
      (Buffer.append env.realloc text c.output_buffer) _
      (append_lem env.realloc r.allocates text r.valid (omega (arith, l, r.low)))
      (λ b held.
        let written : Buffer.write b ≡ text =
          write_lem b ∙ held.1 ∙ ap (λ q. q ++ text) r.drained in
        let emptied = retrieve_all-Holds held.0 in
        simp (r.takes, written) (refl, refl, emptied.0, emptied.1))

pub message_fits : (text : List ℕ) → length (message_buffer text) < 2048
message_fits text = omega (arith, length-print_more 2048 [] text)

-- PAUSE succeeds and does nothing but answer: the socket gets the first bytes of the reply, as
-- many as it takes, and the world is as it was, so that the instances that were alive go on being
-- sent to. The condition: the connection can answer (`realloc` does what it documents, its output
-- buffer is valid, empty and has its write index low, and the next write takes some bytes).
pub handle_cmd_pause_lem :
    (env : Env) (c : RtspConnection) (w : World) (n : ℕ)
    → CanAnswer env c n
    → Returns
        (λ r.
          let (done, c', w') = r in
          (done ≡ true) × (w' ≡ w) × (c'.sent ≡ c.sent ++ take n (message_buffer (bare_reply c))))
        (handle_cmd_pause env c w)
unfolding handle_cmd_pause reply Answered
handle_cmd_pause_lem env c w n r =
    Returns->>= (Answered c (message_buffer (bare_reply c)) n) _
      (send_message env (message_buffer (bare_reply c)) c) _
      (send_message-Answered env (message_buffer (bare_reply c)) c n r
        (message_fits (bare_reply c)))
      (λ (done, c') a. (a.0, refl, a.1))

-- A pointer that is set points to something.
abbrev pub Known {ℓ} : {A : Type ℓ} → Option ℕ → (ℕ → Option A) → Type ℓ
Known none heap = Unit
Known {A = A} (some p) heap = (i : A) × (heap p ≡ some i)

abbrev pub is_at : Option ℕ → ℕ → Bool
is_at none q = false
is_at (some p) q = p == q

-- What becomes of an instance that is woken or not.
abbrev pub woken : Bool → Option RtpInstance → Option RtpInstance
woken b i = if b then Option.map (set_alive true) i else i

update-woken :
    (p q : ℕ) (i : RtpInstance) (heap : ℕ → Option RtpInstance)
    → heap p ≡ some i
    → update p (some (set_alive true i)) heap q ≡ woken (p == q) (heap q)
update-woken p q i heap e = elim (Bool-cases (p == q)) [
  | inl f ↦ rw f (sym (ap (Option.map (set_alive true)) (ap heap (sym ((==_iff p q).0 f)) ∙ e)))
  | inr f ↦ rw f refl
]

Known-update {ℓ} :
    {A : Type ℓ} (p : ℕ) (v : A) (heap : ℕ → Option A) (o : Option ℕ)
    → Known o heap
    → Known o (update p (some v) heap)
Known-update p v heap none k = tt
Known-update p v heap (some r) (i, e) = elim (Bool-cases (p == r)) [
  | inl f ↦ (v, rw f refl)
  | inr f ↦ (i, rw f e)
]

WokenAt : Option ℕ → World → World → Type 0
WokenAt o w w' =
    ((q : ℕ) → w'.instances q ≡ woken (is_at o q) (w.instances q))
    × (w'.rtcp_instances ≡ w.rtcp_instances)

wake_rtp-WokenAt :
    (o : Option ℕ) (w : World) → Known o w.instances → Returns (WokenAt o w) (wake_rtp o w)
unfolding wake_rtp WokenAt
wake_rtp-WokenAt none w k = (λ q. refl, refl)
wake_rtp-WokenAt (some p) w (i, e) = simp e (λ q. update-woken p q i w.instances e, refl)

KeptAt : World → World → Type 0
KeptAt w w' =
    (w'.instances ≡ w.instances)
    × ((o : Option ℕ) → Known o w.rtcp_instances → Known o w'.rtcp_instances)

wake_rtcp-KeptAt :
    (o : Option ℕ) (w : World) → Known o w.rtcp_instances → Returns (KeptAt w) (wake_rtcp o w)
unfolding wake_rtcp KeptAt
wake_rtcp-KeptAt none w k = (refl, λ o' h. h)
wake_rtcp-KeptAt (some p) w (i, e) = simp e (refl, Known-update p _ w.rtcp_instances)

woken-Known :
    (o r : Option ℕ) (w w' : World) → WokenAt o w w' → Known r w.instances → Known r w'.instances
unfolding WokenAt
woken-Known o none w w' k h = tt
woken-Known o (some p) w w' k (i, e) = elim (Bool-cases (is_at o p)) [
  | inl f ↦ (set_alive true i, k.0 p ∙ rw (f, e) refl)
  | inr f ↦ (i, k.0 p ∙ rw f e)
]

WokenAll : RtspConnection → World → World → Type 0
WokenAll c w w' =
    (q : ℕ) → w'.instances q ≡ woken (is_at c.rtp1 q) (woken (is_at c.rtp0 q) (w.instances q))

wake_all-WokenAll :
    (c : RtspConnection) (w : World)
    → Known c.rtp0 w.instances
    → Known c.rtp1 w.instances
    → Known c.rtcp0 w.rtcp_instances
    → Known c.rtcp1 w.rtcp_instances
    → Returns (WokenAll c w) (wake_all c w)
unfolding wake_all WokenAll WokenAt KeptAt
wake_all-WokenAll c w a b d e =
    Returns->>= (WokenAt c.rtp0 w) (WokenAll c w) (wake_rtp c.rtp0 w) _
      (wake_rtp-WokenAt c.rtp0 w a)
      λ w1 k1.
        Returns->>= (KeptAt w1) (WokenAll c w) (wake_rtcp c.rtcp0 w1) _
          (wake_rtcp-KeptAt c.rtcp0 w1 (subst (Known c.rtcp0) (sym k1.1) d))
          λ w2 k2.
            Returns->>= (WokenAt c.rtp1 w2) (WokenAll c w) (wake_rtp c.rtp1 w2) _
              (wake_rtp-WokenAt c.rtp1 w2
                (subst (Known c.rtp1) (sym k2.0) (woken-Known c.rtp0 c.rtp1 w w1 k1 b)))
              λ w3 k3.
                Returns-map (wake_rtcp c.rtcp1 w3)
                  (λ w4 k4 q.
                    ap (λ h. h q) k4.0
                    ∙ k3.0 q
                    ∙ ap (woken (is_at c.rtp1 q)) (ap (λ h. h q) k2.0 ∙ k1.0 q))
                  (wake_rtcp-KeptAt c.rtcp1 w3 (
                    subst (Known c.rtcp1) (sym k3.1)
                      (k2.1 c.rtcp1 (subst (Known c.rtcp1) (sym k1.1) e))))

-- PLAY succeeds and wakes the instances of the connection: an instance that one of its two
-- pointers points to is alive, and any other is as it was. The conditions: the connection can
-- answer (`realloc` does what it documents, its output buffer is valid, empty and has its write
-- index low, and the next write takes some bytes), and its pointers are null or point to
-- instances.
pub handle_cmd_play_lem :
    (env : Env) (c : RtspConnection) (w : World) (n q : ℕ)
    → CanAnswer env c n
    → Known c.rtp0 w.instances
    → Known c.rtp1 w.instances
    → Known c.rtcp0 w.rtcp_instances
    → Known c.rtcp1 w.rtcp_instances
    → Returns
        (λ r.
          let (done, c', w') = r in
          (done ≡ true)
          × (w'.instances q ≡ woken (is_at c.rtp1 q) (woken (is_at c.rtp0 q) (w.instances q))))
        (handle_cmd_play env c w)
unfolding handle_cmd_play Answered WokenAll
handle_cmd_play_lem env c w n q r a b d e =
    Returns->>= (Answered c (message_buffer (play_text c)) n) _
      (send_message env (message_buffer (play_text c)) c) _
      (send_message-Answered env (message_buffer (play_text c)) c n r (message_fits (play_text c)))
      (λ (done, c') s. rw s.0 (
        Returns->>= (WokenAll c w) _ (wake_all c w) _ (wake_all-WokenAll c w a b d e)
          (λ w' k. (refl, k q))))
