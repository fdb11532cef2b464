-- ===== src/Can/RxQueue/Tests.antt =====
-- Runs and instances of the receive ring's theorems, on a ring whose indices are about to wrap.
use beamforming_software.Prelude.{ℕ, ◌≡◌, ◌⊎◌, refl, arith, true, false, [], ◌∷◌, ◌++◌, replicate}
use beamforming_software.Can.Protocol.{Frame, zero_frame}
use beamforming_software.Can.RxQueue.{RxQueue, count, push_isr, pop}
use beamforming_software.Can.RxQueue.Refine.{
  IsValid, contents, fifo_push, fifo_pop, push_isr_refines, pop_refines,
}
use beamforming_software.Can.RxQueue.Race.{pushes, pop_preempted, pop_preempted_linear}

abbrev frame_of : ℕ → Frame
frame_of n = record zero_frame { id = n }

-- two frames, at the slots 7 and 0
abbrev wrapping : RxQueue
wrapping = record {
  frames = frame_of 20 ∷ replicate 6 zero_frame ++ frame_of 10 ∷ [];
  head = 1;
  tail = 255;
  dropped = 5;
}

abbrev full : RxQueue
full = record { frames = replicate 8 (frame_of 3); head = 4; tail = 252; dropped = 65535 }

wrapping-IsValid : IsValid wrapping
unfolding count
wrapping-IsValid = omega arith

full-IsValid : IsValid full
unfolding count
full-IsValid = omega arith

contents_run : contents wrapping ≡ frame_of 10 ∷ frame_of 20 ∷ []
unfolding count
contents_run = refl

pop_run : (pop wrapping zero_frame).1 ≡ frame_of 10
unfolding pop
pop_run = refl

push_isr_refines_example :
    let (sent, q') = push_isr wrapping (frame_of 30) in
    (sent, contents q') ≡ fifo_push (contents wrapping) (frame_of 30)
push_isr_refines_example = push_isr_refines wrapping (frame_of 30) wrapping-IsValid

pop_refines_example :
    let (found, f, q') = pop wrapping zero_frame in
    (found, f, contents q') ≡ fifo_pop (contents wrapping) zero_frame
pop_refines_example = pop_refines wrapping zero_frame wrapping-IsValid

pop_preempted_linear_example :
    let r = pop_preempted wrapping zero_frame (frame_of 30 ∷ []) [] (frame_of 40 ∷ []) in
    ((r.0 ≡ true) × (r ≡ pop (pushes wrapping (frame_of 30 ∷ frame_of 40 ∷ [])) zero_frame))
    ⊎ ((r.0 ≡ false) × (r ≡ pop (pushes wrapping (frame_of 30 ∷ [])) zero_frame))
pop_preempted_linear_example =
    pop_preempted_linear wrapping zero_frame (frame_of 30 ∷ []) [] (frame_of 40 ∷ [])
      wrapping-IsValid
