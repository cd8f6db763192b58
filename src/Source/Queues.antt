-- ===== src/Source/Queues.antt =====
-- The queues of a source: no operation loses a frame or makes two of one.
use my_rtsp_server.Prelude.{
  ℕ, suc, ◌+◌, ◌≡◌, refl, some, List, [], ◌∷◌, ◌++◌, ◌==◌, if◌then◌else◌, arith,
}
use my_rtsp_server.Source.{MediaSource, get_frame, put_frame}

abbrev pub count : ℕ → List ℕ → ℕ
count p [] = 0
count p (q ∷ qs) = (if p == q then 1 else 0) + count p qs

pub count-append : (p : ℕ) (xs ys : List ℕ) → count p (xs ++ ys) ≡ count p xs + count p ys
count-append p [] ys = omega arith
count-append p (x ∷ xs) ys = omega (arith, count-append p xs ys)

-- How often a frame stands in the queues.
abbrev pub queued : ℕ → MediaSource → ℕ
queued p s = count p s.input_que + count p s.output_que

-- Where the output queue has a frame at its front, taking it out and giving it back leaves every
-- frame as often in the queues as before, the output queue without its front, and one task more.
pub put_frame-get_frame :
    (p k : ℕ) (s : MediaSource) (ps : List ℕ)
    → s.output_que ≡ p ∷ ps
    → let (front, s') = get_frame s in
      (front ≡ some p)
      × (queued k (put_frame p s') ≡ queued k s)
      × ((put_frame p s').output_que ≡ ps)
      × ((put_frame p s').tasks ≡ suc s.tasks)
unfolding get_frame put_frame
put_frame-get_frame p k s ps e =
    rw e (refl, omega (arith, count-append k s.input_que (p ∷ [])), refl, refl)
