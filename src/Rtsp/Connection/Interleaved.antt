-- ===== src/Rtsp/Connection/Interleaved.antt =====
-- Interleaved frames that a client sends over the RTSP connection.
use my_rtsp_server.Prelude.{
  ◌>>=◌, length-append, drop-append_left, ℕ, zero, suc, ◌+◌, ◌-◌, ◌*◌, ◌/◌, ◌%◌, ◌^◌, ◌≤◌, ◌<◌, ◌≡◌,
  refl, ap, ◌∙◌, true, false, some, List, [], ◌∷◌, ◌++◌, arith, ltb, Returns, Returns->>=, length,
  drop, get_elem?, slice, le→ltb,
}
use my_rtsp_server.Buffer.{Buffer, peek, readable_bytes, retrieve}
use my_rtsp_server.Buffer.Contents.{IsValid, length-peek, retrieve_lem}
use my_rtsp_server.Rtsp.{RtspConnection}
use my_rtsp_server.Rtsp.World.{World}
use my_rtsp_server.Rtsp.Answer.{Env}
use my_rtsp_server.Rtsp.Connection.{peek_at, handle_rtp_over_tcp, handle_read_bytes}

-- A byte of a slice is the byte of the block.
get_elem?-slice :
    (i j n : ℕ) (l : List ℕ) (x : ℕ) {k : ℕ}
    → k ≡ i + j
    → get_elem? (slice i n l) j ≡ some x
    → get_elem? l k ≡ some x
get_elem?-slice zero j zero l x e h = absurd (cc h)
get_elem?-slice zero j (suc n) [] x e h = absurd (cc h)
get_elem?-slice zero zero (suc n) (y ∷ l) x {k = zero} e h = h
get_elem?-slice zero zero (suc n) (y ∷ l) x {k = suc k} e h = absurd (omega arith)
get_elem?-slice zero (suc j) (suc n) (y ∷ l) x {k = zero} e h = absurd (omega arith)
get_elem?-slice zero (suc j) (suc n) (y ∷ l) x {k = suc k} e h =
    get_elem?-slice zero j n l x (omega arith) h
get_elem?-slice (suc i) j zero [] x e h = absurd (cc h)
get_elem?-slice (suc i) j (suc n) [] x e h = absurd (cc h)
get_elem?-slice (suc i) j n (y ∷ l) x {k = zero} e h = absurd (omega arith)
get_elem?-slice (suc i) j n (y ∷ l) x {k = suc k} e h = get_elem?-slice i j n l x (omega arith) h

-- A client's frame: a dollar sign, a channel, a size in two bytes, and the payload.
abbrev pub frame : ℕ → List ℕ → List ℕ
frame channel payload = b'$' ∷ channel ∷ (length payload / 256) ∷ (length payload % 256) ∷ payload

-- What a peek at a position of the readable bytes sees.
peek_at-peek :
    (b : Buffer) {q : List ℕ} (i x : ℕ) → peek b ≡ q → get_elem? q i ≡ some x → peek_at i b ≡ some x
peek_at-peek b i x e h =
    get_elem?-slice b.read_index i (b.write_index - b.read_index) b.block x refl (rw e h)

frame_length : (payload : List ℕ) → length payload + 4 ≡ suc (suc (suc (suc (length payload))))
frame_length payload = omega arith

Taken : RtspConnection → List ℕ → RtspConnection → Type 0
Taken c rest c' =
    (c' ≡ record c { input_buffer = c'.input_buffer })
    × IsValid c'.input_buffer
    × (peek c'.input_buffer ≡ rest)

handle_rtp_over_tcp-frame :
    (c : RtspConnection) (channel : ℕ) (payload rest : List ℕ)
    → IsValid c.input_buffer
    → length payload < 2 ^ 16
    → peek c.input_buffer ≡ frame channel payload ++ rest
    → Returns (Taken c rest) (handle_rtp_over_tcp c)
unfolding handle_rtp_over_tcp Taken
handle_rtp_over_tcp-frame c channel payload rest v s q =
    let high = peek_at-peek c.input_buffer 2 (length payload / 256) q refl in
    let low = peek_at-peek c.input_buffer 3 (length payload % 256) q refl in
    let length_q : length payload + 4 ≤ length (peek c.input_buffer) =
      omega (arith, ap length q, length-append payload rest) in
    let size : length payload / 256 * 256 + length payload % 256 ≡ length payload = omega arith in
    let enough : ltb (readable_bytes c.input_buffer) (length payload + 4) ≡ false =
      le→ltb _ _ (omega (arith, length-peek v)) in
    let rest_q : drop (length payload + 4) (peek c.input_buffer) ≡ rest =
      rw (q, frame_length payload) (drop-append_left payload rest) in
    rw (high, low, size, enough)
      (Returns->>= _ (Taken c rest) (retrieve (length payload + 4) c.input_buffer) _
        (retrieve_lem (length payload + 4) v length_q) (λ b h. (refl, h.0, h.1 ∙ rest_q)))

handle_read_bytes-interleaved :
    (env : Env) (c : RtspConnection) (w : World)
    → c.is_rtp_over_tcp ≡ true
    → peek_at 0 c.input_buffer ≡ some b'$'
    → handle_read_bytes env c w ≡ (handle_rtp_over_tcp c >>= λ c'. some (c', w))
unfolding handle_read_bytes
handle_read_bytes-interleaved env c w t head = simp (t, head)

-- On a connection with RTP over TCP whose valid input begins with a whole interleaved frame of
-- less than 65536 payload bytes, handling the bytes takes exactly that frame out: the rest of the
-- input stays, and nothing else of the connection and nothing of the world changes.
pub handle_read_bytes-frame :
    (env : Env) (c : RtspConnection) (w : World) (channel : ℕ) (payload rest : List ℕ)
    → IsValid c.input_buffer
    → c.is_rtp_over_tcp ≡ true
    → length payload < 2 ^ 16
    → peek c.input_buffer ≡ frame channel payload ++ rest
    → Returns
        (λ r.
          let (c', w') = r in
          (c' ≡ record c { input_buffer = c'.input_buffer })
          × (w' ≡ w)
          × IsValid c'.input_buffer
          × (peek c'.input_buffer ≡ rest))
        (handle_read_bytes env c w)
unfolding Taken
handle_read_bytes-frame env c w channel payload rest v t s q =
    rw (handle_read_bytes-interleaved env c w t (peek_at-peek c.input_buffer 0 b'$' q refl)) (
      Returns->>= (Taken c rest) _ (handle_rtp_over_tcp c) _
        (handle_rtp_over_tcp-frame c channel payload rest v s q) (λ c' h. (h.0, refl, h.1, h.2)))
