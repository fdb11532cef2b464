-- ===== src/Can/RxQueue/Race.antt =====
-- The ring under preemption. The receive interrupt may run between any two accesses of `pop`, and
-- runs to its end; the main loop never preempts it. `pop` is taken apart at its volatile accesses:
-- the read of `tail`, the read of `head`, the copy of the slot, the write of `tail`. Pushes at each
-- of the three gaps give what an undisturbed pop and the same pushes give. The copy of the slot,
-- which C makes word by word, is one step.
use beamforming_software.Prelude.{
  ℕ_discrete, ◌∙◌, ◌⊎◌, inl, inr, get_or-set_ne, ◌+◌, ◌≡◌, ◌≢◌, refl, arith, Bool, true, false,
  List, [], ◌∷◌, ◌++◌, if◌then◌else◌, ◌==◌, get_or, bit_and, u8,
}
use beamforming_software.Prelude.Bits.{bit_and_mask}
use beamforming_software.Can.Protocol.{Frame, zero_frame}
use beamforming_software.Can.RxQueue.{RxQueue, index_mask, count, push_isr, pop}
use beamforming_software.Can.RxQueue.Refine.{IsValid, push_isr-IsValid}

-- the interrupt's pushes in one gap
unfoldable pub pushes : RxQueue → List Frame → RxQueue
pushes q [] = q
pushes q (f ∷ fs) = pushes (push_isr q f).1 fs

-- `can_rx_queue_pop` with pushes `a` after the read of `tail`, `b` after the read of `head`, and
-- `c` after the copy of the slot; `tail` is the value that was read.
unfoldable pub pop_preempted :
    RxQueue → Frame → List Frame → List Frame → List Frame → Bool × Frame × RxQueue
pop_preempted q old a b c =
    let tail = q.tail in
    let q1 = pushes q a in
    if tail == q1.head
    then (false, old, q1)
    else (let q2 = pushes q1 b in
        let frame = get_or q2.frames (bit_and tail index_mask) zero_frame in
        let q3 = pushes q2 c in (true, frame, record q3 { tail = u8 (tail + 1) }))

pub pushes-IsValid : (q : RxQueue) (fs : List Frame) → IsValid q → IsValid (pushes q fs)
unfolding pushes
pushes-IsValid q [] v = v
pushes-IsValid q (f ∷ fs) v = pushes-IsValid (push_isr q f).1 fs (push_isr-IsValid q f v)

pub tail-pushes : (q : RxQueue) (fs : List Frame) → (pushes q fs).tail ≡ q.tail
unfolding pushes push_isr
tail-pushes q [] = refl
tail-pushes q (f ∷ fs) = ground (arith, tail-pushes (push_isr q f).1 fs)

pushes-append : (q : RxQueue) (fs gs : List Frame) → pushes q (fs ++ gs) ≡ pushes (pushes q fs) gs
unfolding pushes
pushes-append q [] gs = refl
pushes-append q (f ∷ fs) gs = pushes-append (push_isr q f).1 fs gs

-- the slot that the next pop reads
abbrev oldest : RxQueue → Frame
oldest q = get_or q.frames (bit_and q.tail index_mask) zero_frame

-- A push into a ring that is not empty neither overwrites the oldest frame nor empties the ring.
push_isr-oldest :
    (q : RxQueue) (f : Frame)
    → IsValid q
    → q.tail ≢ q.head
    → (oldest (push_isr q f).1 ≡ oldest q) × ((push_isr q f).1.tail ≢ (push_isr q f).1.head)
unfolding push_isr count
push_isr-oldest q f v ne = ground (
  arith,
  bit_and_mask 3 q.head,
  bit_and_mask 3 q.tail,
  get_or-set_ne q.frames (bit_and q.head 7) (bit_and q.tail 7) f zero_frame,
)

pushes-oldest :
    (q : RxQueue) (fs : List Frame)
    → IsValid q
    → q.tail ≢ q.head
    → (oldest (pushes q fs) ≡ oldest q) × ((pushes q fs).tail ≢ (pushes q fs).head)
unfolding pushes
pushes-oldest q [] v ne = (refl, ne)
pushes-oldest q (f ∷ fs) v ne =
    let (same, ne') = push_isr-oldest q f v ne in
    let (rest, ne'') = pushes-oldest (push_isr q f).1 fs (push_isr-IsValid q f v) ne' in
    (rest ∙ same, ne'')

-- A pop from a valid ring that the receive interrupt disturbs in any of its gaps is a pop that
-- nothing disturbs: if it finds a frame, after all the pushes; if it finds none, after those that
-- came before its read of `head`.
pub pop_preempted_linear :
    (q : RxQueue) (old : Frame) (a b c : List Frame)
    → IsValid q
    → let r = pop_preempted q old a b c in
      ((r.0 ≡ true) × (r ≡ pop (pushes q (a ++ (b ++ c))) old))
      ⊎ ((r.0 ≡ false) × (r ≡ pop (pushes q a) old))
unfolding pop_preempted pop
pop_preempted_linear q old a b c v =
    let v1 = pushes-IsValid q a v in
    let q1 = pushes q a in
    let q2 = pushes q1 b in
    let t1 = tail-pushes q a in
    let t2 = tail-pushes q1 b in
    let t3 = tail-pushes q2 c in
    elim (ℕ_discrete q.tail q1.head) [
      | yes e ↦ inr (ground arith, ground arith)
      | no ne ↦
          let ne1 : q1.tail ≢ q1.head = rw t1 ne in
          let (same2, ne2) = pushes-oldest q1 b v1 ne1 in
          let (same3, ne3) = pushes-oldest q2 c (pushes-IsValid q1 b v1) ne2 in
          inl (ground arith, rw (pushes-append q a (b ++ c), pushes-append q1 b c) (ground arith))
    ]
