-- ===== src/Can/RxQueue/Refine.antt =====
-- The ring refines a queue of at most eight frames, across every wrap of its byte indices.
use beamforming_software.Prelude.{
  ℕ, zero, suc, ◌+◌, ◌%◌, ◌≤◌, ◌<◌, ◌≡◌, ◌≢◌, refl, ap, ap₂, arith, Bool, true, false, List, [],
  ◌∷◌, ◌++◌, length, length-set, get_or, set, get_or-set_self, get_or-set_ne, bit_and, u8,
  uint16_max, min, ltb, if◌then◌else◌, ℕ_discrete,
}
use beamforming_software.Prelude.Bits.{bit_and_mask}
use beamforming_software.Can.Protocol.{Frame, zero_frame}
use beamforming_software.Can.RxQueue.{RxQueue, capacity, distance, init, count, push_isr, pop}

-- The invariant of the structure: the array's size, the types' ranges, and at most eight frames.
pub record IsValid (q : RxQueue) : Type 0 where
  pub slots : length q.frames ≡ capacity
  pub head_byte : q.head < 256
  pub tail_byte : q.tail < 256
  pub bounded : count q ≤ capacity
  pub dropped_in : q.dropped ≤ uint16_max

module _ (frames : List Frame) where
  -- the `n` frames from the free-running index `t` on
  abbrev pub window : ℕ → ℕ → List Frame
  window t zero = []
  window t (suc n) = get_or frames (t % 8) zero_frame ∷ window (u8 (t + 1)) n

  pub length-window : (t n : ℕ) → length (window t n) ≡ n
  length-window t zero = refl
  length-window t (suc n) = ap suc (length-window (u8 (t + 1)) n)

-- The queue that the ring stands for, oldest frame first.
abbrev pub contents : RxQueue → List Frame
contents q = window q.frames q.tail (count q)

pub length-contents : (q : RxQueue) → length (contents q) ≡ count q
length-contents q = length-window q.frames q.tail (count q)

-- A write just past a window extends it by that frame: the slots before it are others.
window-set :
    (frames : List Frame) (f : Frame) (t n i : ℕ)
    → length frames ≡ 8
    → n < 8
    → i ≡ (t + n) % 8
    → window (set frames i f) t (suc n) ≡ window frames t n ++ f ∷ []
window-set frames f t zero i h hn e =
    let here : i ≡ t % 8 = omega arith in
    rw here (ap (λ x. x ∷ []) (get_or-set_self frames (t % 8) f zero_frame (omega arith)))
window-set frames f t (suc n) i h hn e =
    ap₂ ◌∷◌ (get_or-set_ne frames i (t % 8) f zero_frame (omega arith))
      (window-set frames f (u8 (t + 1)) n i h (omega arith) (omega arith))

-- The specification: a FIFO of at most eight.
unfoldable pub fifo_push : List Frame → Frame → Bool × List Frame
fifo_push xs f = if ltb (length xs) capacity then (true, xs ++ f ∷ []) else (false, xs)

unfoldable pub fifo_pop : List Frame → Frame → Bool × Frame × List Frame
fifo_pop [] old = (false, old, [])
fifo_pop (x ∷ xs) old = (true, x, xs)

pub init-IsValid : (q : RxQueue) → IsValid (init q) × (contents (init q) ≡ [])
unfolding init count
init-IsValid q = (omega arith, refl)

pub push_isr-IsValid : (q : RxQueue) (f : Frame) → IsValid q → IsValid (push_isr q f).1
unfolding push_isr count
push_isr-IsValid q f v = ground (arith, length-set q.frames (bit_and q.head 7) f)

pub pop-IsValid : (q : RxQueue) (old : Frame) → IsValid q → IsValid (pop q old).2
unfolding pop count
pop-IsValid q old v = ground arith

contents-push :
    (q : RxQueue) (f : Frame)
    → IsValid q
    → count q < capacity
    → window (set q.frames (bit_and q.head 7) f) q.tail (distance (u8 (q.head + 1)) q.tail)
      ≡ contents q ++ f ∷ []
unfolding count
contents-push q f v room =
    let one_more : distance (u8 (q.head + 1)) q.tail ≡ suc (distance q.head q.tail) = omega arith in
    rw one_more (
      window-set q.frames f q.tail (distance q.head q.tail) (bit_and q.head 7) v.slots room
        (omega (arith, bit_and_mask 3 q.head)))

-- From a valid ring, the interrupt's push answers as the bounded FIFO does and leaves the ring
-- standing for its queue: the frame goes to the end if there are fewer than eight, and is dropped
-- otherwise.
pub push_isr_refines :
    (q : RxQueue) (f : Frame)
    → IsValid q
    → let (sent, q') = push_isr q f in (sent, contents q') ≡ fifo_push (contents q) f
unfolding push_isr fifo_push count
push_isr_refines q f v = ground (arith, contents-push q f v, length-contents q)

contents-empty : (q : RxQueue) → IsValid q → q.tail ≡ q.head → contents q ≡ []
unfolding count
contents-empty q v e = let nothing : distance q.head q.tail ≡ 0 = omega arith in rw nothing

contents-pop :
    (q : RxQueue)
    → IsValid q
    → q.tail ≢ q.head
    → contents q
      ≡ get_or q.frames (bit_and q.tail 7) zero_frame
        ∷ window q.frames (u8 (q.tail + 1)) (distance q.head (u8 (q.tail + 1)))
unfolding count
contents-pop q v ne =
    let one_less : distance q.head q.tail ≡ suc (distance q.head (u8 (q.tail + 1))) = omega arith in
    let slot : bit_and q.tail 7 ≡ q.tail % 8 = bit_and_mask 3 q.tail in rw (one_less, slot)

-- From a valid ring, the main loop's pop answers as the FIFO does and leaves the ring standing for
-- the rest: the oldest frame, or nothing and the caller's frame untouched.
pub pop_refines :
    (q : RxQueue) (old : Frame)
    → IsValid q
    → let (found, f, q') = pop q old in (found, f, contents q') ≡ fifo_pop (contents q) old
unfolding pop fifo_pop count
pop_refines q old v = elim (ℕ_discrete q.tail q.head) [
  | yes e ↦ ground (arith, contents-empty q v e)
  | no ne ↦ ground (arith, contents-pop q v ne)
]

-- A push that finds the ring full counts the frame, up to the largest `uint16_t`; a push that
-- stores a frame leaves the counter, and so does a pop.
pub push_isr-dropped :
    (q : RxQueue) (f : Frame)
    → IsValid q
    → (push_isr q f).1.dropped
      ≡ (if ltb (count q) capacity then q.dropped else min (q.dropped + 1) uint16_max)
unfolding push_isr count
push_isr-dropped q f v = ground arith

-- Push and pop keep the invariant of the ring: eight slots, byte indices at most eight apart, and a
-- counter of 16 bits.
pub ring-IsValid :
    (q : RxQueue) (f old : Frame) → IsValid q → IsValid (push_isr q f).1 × IsValid (pop q old).2
ring-IsValid q f old v = (push_isr-IsValid q f v, pop-IsValid q old v)
