-- ===== src/Rtsp/World.antt =====
-- What the connections share: the sessions that src/net/rtsp_server.cpp keeps by name, and the heap
-- of the instances.
use my_rtsp_server.Prelude.{
  ℕ, ◌≡◌, refl, ◌∙◌, Bool, true, false, ◌&&◌, Option, none, some, List, [], ◌∷◌, ◌==◌,
  if◌then◌else◌, ap, Option-cases, Bool-cases, inl, inr, arith,
}
use my_rtsp_server.Prelude.Text.{bytes_eq, bytes_eq-eq}
use my_rtsp_server.Rtp.Instance.{RtcpInstance}
use my_rtsp_server.Session.{MediaSession, Instances}

abbrev pub Sessions : Type 0
Sessions = List (List ℕ × MediaSession)

-- Pointers from `next` on are not in use; `closed` are the descriptors that destructors have
-- closed, the last first.
pub record World : Type 0 where
  pub sessions : Sessions
  pub instances : Instances
  pub rtcp_instances : ℕ → Option RtcpInstance
  pub next : ℕ
  pub closed : List ℕ

-- `LookupMediaSession`; `none` is the null pointer.
unfoldable pub lookup_media_session : List ℕ → Sessions → Option MediaSession
lookup_media_session name [] = none
lookup_media_session name ((k, s) ∷ m) =
    if bytes_eq k name then some s else lookup_media_session name m

-- `AddMediaSession`.
unfoldable pub add_media_session : MediaSession → Sessions → Bool × Sessions
unfolding lookup_media_session
add_media_session s m = elim (lookup_media_session s.session_name m) [
  | some _ ↦ (false, m)
  | none ↦ (true, (s.session_name, s) ∷ m)
]

-- The session of that name is changed in place.
unfoldable pub update_session : List ℕ → MediaSession → Sessions → Sessions
update_session name s [] = []
update_session name s ((k, t) ∷ m) =
    if bytes_eq k name then (k, s) ∷ m else (k, t) ∷ update_session name s m

-- A pointer's target, set or deleted.
abbrev pub update {ℓ} : {A : Type ℓ} → ℕ → Option A → (ℕ → Option A) → ℕ → Option A
update p v heap q = if p == q then v else heap q

bytes_eq-left : (k name key : List ℕ) → bytes_eq k name ≡ true → bytes_eq k key ≡ bytes_eq name key
bytes_eq-left k name key h = ap (λ x. bytes_eq x key) (bytes_eq-eq k name h)

pub lookup-update_session :
    (name key : List ℕ) (s t : MediaSession) (m : Sessions)
    → lookup_media_session name m ≡ some t
    → lookup_media_session key (update_session name s m)
      ≡ (if bytes_eq name key then some s else lookup_media_session key m)
unfolding lookup_media_session update_session
lookup-update_session name key s t [] h = cc
lookup-update_session name key s t ((k, u) ∷ m) h = elim (Bool-cases (bytes_eq k name)) [
  | inl e ↦ ground (arith, bytes_eq-left k name key e)
  | inr e ↦ elim (Bool-cases (bytes_eq name key)) [
    | inl d ↦ ground (
      arith,
      lookup-update_session name key s t m,
      bytes_eq-eq name key d,
      ap (bytes_eq k) (bytes_eq-eq name key d),
    )
    | inr d ↦ ground (arith, lookup-update_session name key s t m)
  ]
]

pub lookup-update_session-some :
    (own key : List ℕ) (t s u : MediaSession) (m : Sessions)
    → lookup_media_session own m ≡ some s
    → lookup_media_session key m ≡ some u
    → (s' : MediaSession) × (lookup_media_session key (update_session own t m) ≡ some s')
lookup-update_session-some own key t s u m d h = elim (Bool-cases (bytes_eq own key)) [
  | inl e ↦ (t, lookup-update_session own key t s m d ∙ rw e refl)
  | inr e ↦ (u, lookup-update_session own key t s m d ∙ rw e h)
]

-- A session is added exactly if its name is not taken; the look-up of that name then gives it, and
-- the look-up of any other name, or of a taken one, gives what it gave.
pub add_media_session_lookup :
    (s : MediaSession) (key : List ℕ) (m : Sessions)
    → let (done, m') = add_media_session s m in
      (done ≡ elim (lookup_media_session s.session_name m) [ none ↦ true | some _ ↦ false ])
      × (lookup_media_session key m'
          ≡ (if done && bytes_eq s.session_name key then some s else lookup_media_session key m))
unfolding add_media_session lookup_media_session
add_media_session_lookup s key m = elim (Option-cases (lookup_media_session s.session_name m)) [
  | inl e ↦ rw (e, add_media_session) (refl, refl)
  | inr (old, e) ↦ rw (e, add_media_session) (refl, refl)
]
