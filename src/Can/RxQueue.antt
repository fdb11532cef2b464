-- ===== src/Can/RxQueue.antt =====
-- stm32/app/src/can/rx_queue.c: the ring between the receive interrupt (the producer) and the main
-- loop (the consumer). `head` and `tail` are free-running bytes. The queue and frame pointers are
-- those of static or local objects and never NULL.
pub mod Refine
pub mod Race
mod Tests
use beamforming_software.Prelude.{
  ℕ, ◌+◌, ◌-◌, Bool, true, false, List, not, ltb, leb, ◌==◌, if◌then◌else◌, get_or, set, replicate,
  bit_and, u8, uint16_max,
}
use beamforming_software.Can.Protocol.{Frame, zero_frame}

abbrev pub capacity : ℕ
capacity = 8

abbrev pub index_mask : ℕ
index_mask = capacity - 1

-- `can_rx_queue_t`
pub record RxQueue : Type 0 where
  pub frames : List Frame
  pub head : ℕ
  pub tail : ℕ
  pub dropped : ℕ

-- `memset` of the whole structure
pub init : RxQueue → RxQueue
init queue = record { frames = replicate capacity zero_frame; head = 0; tail = 0; dropped = 0 }

-- the difference of two bytes, as a byte
abbrev pub distance : ℕ → ℕ → ℕ
distance head tail = u8 (head + 256 - tail)

unfoldable pub count : RxQueue → ℕ
count queue = distance queue.head queue.tail

unfoldable pub push_isr : RxQueue → Frame → Bool × RxQueue
push_isr queue frame =
    if leb capacity (distance queue.head queue.tail)
    then (
      false,
      if not (queue.dropped == uint16_max)
          then record queue { dropped = queue.dropped + 1 }
          else queue,
    )
    else (
      true,
      record queue {
        frames = set queue.frames (bit_and queue.head index_mask) frame;
        head = u8 (queue.head + 1);
      },
    )

-- The frame is what `*frame` holds afterwards.
unfoldable pub pop : RxQueue → Frame → Bool × Frame × RxQueue
pop queue frame = if queue.tail == queue.head then (false, frame, queue) else (
  true,
  get_or queue.frames (bit_and queue.tail index_mask) zero_frame,
  record queue { tail = u8 (queue.tail + 1) },
)

abbrev pub dropped : RxQueue → ℕ
dropped queue = queue.dropped
