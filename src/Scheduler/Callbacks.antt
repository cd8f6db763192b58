-- ===== src/Scheduler/Callbacks.antt =====
-- What becomes of a callback that another thread hands to the loop.
use my_rtsp_server.Prelude.{
  ℕ, zero, suc, ◌≡◌, refl, ap, sym, ◌∙◌, Bool, true, false, Option, none, some, List, [], ◌∷◌, ◌++◌,
  if◌then◌else◌, ◌>>=◌, Option-cases, inl, inr, arith,
}
use my_rtsp_server.Poller
use my_rtsp_server.Poller.{Poller}
use my_rtsp_server.Scheduler.{
  EventScheduler, TriggerEvent, run_in_local_thread, call, trigger, trigger_all,
  handle_triggle_events, other_rounds, handle_other_event, poll, loop,
}

->>=-none {ℓ κ} :
    {A : Type ℓ} {B : Type κ} (o : Option A) (k : A → Option B)
    → ((a : A) → o ≡ some a → k a ≡ none)
    → (o >>= k) ≡ none
->>=-none none k h = refl
->>=-none (some a) k h = h a refl

else_none {ℓ} :
    {A : Type ℓ} (b : Bool) (x y : Option A) → b ≡ false → y ≡ none → (if b then x else y) ≡ none
else_none true x y e h = cc
else_none false x y e h = h

-- The calls of RunInLocalThread leave something behind.
queued :
    (que : List (ℕ × ℕ)) (cb arg : ℕ)
    → (c : ℕ × ℕ) × (cs : List (ℕ × ℕ)) × (que ++ ((cb, arg) ∷ []) ≡ c ∷ cs)
queued [] cb arg = ((cb, arg), [], refl)
queued (c ∷ cs) cb arg = (c, cs ++ ((cb, arg) ∷ []), refl)

-- A callback leaves the queue alone: `RunInLocalThread` would wait for the mutex that the loop's
-- thread has, and nothing else changes the queue.
module _ (run : ℕ → ℕ → EventScheduler → Option EventScheduler)
    (runs : (cb arg : ℕ) (s s' : EventScheduler)
      → run cb arg s ≡ some s'
      → s'.callback_que ≡ s.callback_que) where
  other_rounds_stuck :
      (fuel : ℕ) (que : List (ℕ × ℕ)) (s : EventScheduler) {c : ℕ × ℕ} {cs : List (ℕ × ℕ)}
      → que ≡ s.callback_que
      → que ≡ c ∷ cs
      → other_rounds run fuel que s ≡ none
  unfolding other_rounds
  other_rounds_stuck zero que s same e = refl
  other_rounds_stuck (suc fuel) [] s same e = cc
  other_rounds_stuck (suc fuel) ((cb, arg) ∷ que) s {c} {cs} same e =
      ->>=-none (run cb arg s) (λ s'. other_rounds run fuel s'.callback_que s')
        (λ s' k. other_rounds_stuck fuel s'.callback_que s' refl (runs cb arg s s' k ∙ sym same))

  call-callback_que :
      (callback : Option ℕ) (arg : ℕ) (s s' : EventScheduler)
      → call run callback arg s ≡ some s'
      → s'.callback_que ≡ s.callback_que
  unfolding call
  call-callback_que none arg s s' k = ground arith
  call-callback_que (some cb) arg s s' k = runs cb arg s s' k

  trigger_all-callback_que :
      (events : List TriggerEvent) (s s' : EventScheduler)
      → trigger_all run events s ≡ some s'
      → s'.callback_que ≡ s.callback_que
  unfolding trigger_all
  trigger_all-callback_que [] s s' k = ground arith
  trigger_all-callback_que (event ∷ events) s s' k = elim (Option-cases (trigger run event s)) [
    | inl n ↦ let left = rw n at k in cc
    | inr (s1, e) ↦
        trigger_all-callback_que events s1 s' (rw e at k)
        ∙ call-callback_que event.trigger_callback event.arg s s1 e
  ]

  -- A queue with a callback is never worked off.
  pub handle_other_event_stuck :
      (fuel cb arg : ℕ) (s : EventScheduler)
      → handle_other_event run fuel (run_in_local_thread cb arg s) ≡ none
  unfolding run_in_local_thread
  handle_other_event_stuck fuel cb arg s =
      let (c, cs, e) = queued s.callback_que cb arg in
      other_rounds_stuck fuel (s.callback_que ++ ((cb, arg) ∷ [])) (run_in_local_thread cb arg s)
        refl e

  handle_triggle_events-callback_que :
      (s s' : EventScheduler)
      → handle_triggle_events run s ≡ some s'
      → s'.callback_que ≡ s.callback_que
  unfolding handle_triggle_events
  handle_triggle_events-callback_que s s' k =
      elim (Option-cases (trigger_all run s.trigger_events s)) [
        | inl n ↦ let left = rw n at k in cc
        | inr (s1, e) ↦
            let kept = trigger_all-callback_que s.trigger_events s s1 e in
            let left = rw e at k in ground arith
      ]

  poll-callback_que :
      (run_io : ℕ → ℕ → Poller → Option Poller) (ready : Option (List (ℕ × ℕ)))
      (s s' : EventScheduler)
      → poll run run_io ready s ≡ some s'
      → s'.callback_que ≡ s.callback_que
  unfolding poll
  poll-callback_que run_io ready s s' k =
      elim (Option-cases (Poller.handle_event run_io ready s.poller)) [
        | inl n ↦ let left = rw n at k in cc
        | inr (p, e) ↦ let left = rw e at k in ground arith
      ]

  -- Once a callback was handed to a loop that is to go on, the round of the loop does not end, for
  -- any number of rounds of the queue's own loop. The condition: the callbacks leave the queue
  -- alone.
  pub loop_stuck :
      (run_io : ℕ → ℕ → Poller → Option Poller) (fuel : ℕ) (ready : Option (List (ℕ × ℕ)))
      (later : List (Option (List (ℕ × ℕ)))) (cb arg : ℕ) (s : EventScheduler)
      → s.quit ≡ false
      → loop run run_io fuel (ready ∷ later) (run_in_local_thread cb arg s) ≡ none
  unfolding loop run_in_local_thread
  loop_stuck run_io fuel ready later cb arg s q =
      let s0 = run_in_local_thread cb arg s in
      let (c, cs, e) = queued s.callback_que cb arg in
      else_none s.quit (some s0) _ q (
        ->>=-none (handle_triggle_events run s0)
          (λ s1. do
            s2 ← poll run run_io ready s1
            s3 ← handle_other_event run fuel s2
            loop run run_io fuel later s3)
          (λ s1 k1.
            ->>=-none (poll run run_io ready s1)
              (λ s2. do s3 ← handle_other_event run fuel s2; loop run run_io fuel later s3)
              (λ s2 k2.
                let held =
                  poll-callback_que run_io ready s1 s2 k2
                  ∙ handle_triggle_events-callback_que s0 s1 k1 in
                ap (λ o. o >>= loop run run_io fuel later)
                  (other_rounds_stuck fuel s2.callback_que s2 refl (held ∙ e)))))
