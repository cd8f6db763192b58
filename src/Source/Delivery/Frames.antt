-- ===== src/Source/Delivery/Frames.antt =====
-- The way of a frame from the queue of the source to the sink and back.
use my_rtsp_server.Prelude.{
  ℕ, suc, ◌≡◌, refl, sym, ap, Option, some, List, [], ◌∷◌, ◌++◌, Returns, Returns->>=, subst, ◌∙◌,
}
use my_rtsp_server.Rtp.{AvFrame}
use my_rtsp_server.Source.{MediaSource, get_frame, put_frame}
use my_rtsp_server.Source.Queues.{queued, put_frame-get_frame}
use my_rtsp_server.Source.Delivery.{handle_front, timeout_callback}

module _ {Sink : Type 0} (handle_frame : AvFrame → Sink → Option Sink) where
  -- A timeout hands the front of the output queue to the sink and gives it back: the queue is
  -- without its front, the input queue has it at its end, there is one task more, and every
  -- frame is queued as often as before.
  pub timeout_callback_lem :
      (Q : Sink → Type 0) (p k : ℕ) (ps : List ℕ) (sink : Sink) (s : MediaSource)
      → s.output_que ≡ p ∷ ps
      → Returns Q (handle_frame (s.av_frames p) sink)
      → Returns
          (λ r.
            Q r.0
            × (r.1.output_que ≡ ps)
            × (r.1.input_que ≡ s.input_que ++ (p ∷ []))
            × (r.1.tasks ≡ suc s.tasks)
            × (queued k r.1 ≡ queued k s))
          (timeout_callback handle_frame sink s)
  unfolding timeout_callback handle_front get_frame put_frame
  timeout_callback_lem Q p k ps sink s e h =
      let taken = record s { output_que = ps } in
      let front : get_frame s ≡ (some p, taken) = rw e refl in
      let back = put_frame-get_frame p k s ps e in
      subst
        (λ g.
          Returns
            (λ r.
              Q r.0
              × (r.1.output_que ≡ ps)
              × (r.1.input_que ≡ s.input_que ++ (p ∷ []))
              × (r.1.tasks ≡ suc s.tasks)
              × (queued k r.1 ≡ queued k s))
            (handle_front handle_frame g.0 sink g.1))
        (sym front)
        (Returns->>= Q _ (handle_frame (s.av_frames p) sink)
          (λ sink'. some (sink', put_frame p taken)) h
          (λ sink' q. (
            q,
            refl,
            refl,
            refl,
            (let same = ap (λ g. queued k (put_frame p g.1)) front in sym same ∙ back.1),
          )))
