-- ===== src/Can/TxQueue.antt =====
-- stm32/app/src/can/tx_queue.c: the bounded transmit queue with priorities. The caller serializes
-- its calls, and the pointers are those of static or local objects and never NULL. A priority is
-- the number of the enumeration, so that the validity test has what it tests. A loop recurs on the
-- rounds left; its `uint8_t` index does not wrap, since `count` is at most eight in every queue
-- that the operations make.
pub mod Contents
pub mod Select
pub mod Evict
pub mod Order
mod Tests
use beamforming_software.Prelude.{
  ℕ, zero, suc, ◌+◌, ◌-◌, Bool, true, false, List, not, ◌||◌, ltb, leb, ◌==◌, if◌then◌else◌, get_or,
  set, replicate, u8,
}
use beamforming_software.Can.Protocol.{Frame, zero_frame}

abbrev pub capacity : ℕ
capacity = 8

-- `can_tx_priority_t`: the lower number goes first.
abbrev pub priority_error : ℕ
priority_error = 0

abbrev pub priority_ack : ℕ
priority_ack = 1

abbrev pub priority_requested_status : ℕ
priority_requested_status = 2

abbrev pub priority_count : ℕ
priority_count = 4

-- `can_tx_queue_entry_t`
pub record Entry : Type 0 where
  pub frame : Frame
  pub priority : ℕ

abbrev pub zero_entry : Entry
zero_entry = record { frame = zero_frame; priority = 0 }

-- `can_tx_queue_t`
pub record TxQueue : Type 0 where
  pub entries : List Entry
  pub count : ℕ

-- `queue->entries[index].priority`
abbrev pub priority_at : List Entry → ℕ → ℕ
priority_at entries index = (get_or entries index zero_entry).priority

pub init : TxQueue → TxQueue
init queue = record { entries = replicate capacity zero_entry; count = 0 }

abbrev pub priority_valid : ℕ → Bool
priority_valid priority = ltb priority priority_count

unfoldable pub push : TxQueue → Frame → ℕ → Bool × TxQueue
push queue frame priority =
    if not (priority_valid priority)
    then (false, queue)
    else if leb capacity queue.count
    then (false, queue)
    else (
      true,
      record {
        entries = set queue.entries queue.count (record { frame = frame; priority = priority });
        count = u8 (queue.count + 1);
      },
    )

-- the loop that selects the first entry of the least number, from `index` on
unfoldable pub select_loop : List Entry → ℕ → ℕ → ℕ → ℕ
select_loop entries zero index selected = selected
select_loop entries (suc rounds) index selected =
    select_loop entries rounds (index + 1)
      (if ltb (priority_at entries index) (priority_at entries selected) then index else selected)

-- What `*frame` and `*entry_index` hold afterwards is the second and third part.
unfoldable pub peek_highest : TxQueue → Frame → ℕ → Bool × Frame × ℕ
unfolding select_loop
peek_highest queue frame entry_index =
    let selected = select_loop queue.entries (queue.count - 1) 1 0 in
    if queue.count == 0
    then (false, frame, entry_index)
    else (true, (get_or queue.entries selected zero_entry).frame, selected)

-- `entries[index] = entries[index + 1]`, upwards
unfoldable pub shift_loop : List Entry → ℕ → ℕ → List Entry
shift_loop entries zero index = entries
shift_loop entries (suc rounds) index =
    shift_loop (set entries index (get_or entries (index + 1) zero_entry)) rounds (index + 1)

unfoldable pub remove : TxQueue → ℕ → TxQueue
unfolding shift_loop
remove queue entry_index =
    if queue.count == 0 || leb queue.count entry_index then queue else record {
      entries = shift_loop queue.entries (queue.count - 1 - entry_index) entry_index;
      count = u8 (queue.count - 1);
    }

-- What `*priority` holds afterwards is the second part.
unfoldable pub get_highest_priority : TxQueue → ℕ → Bool × ℕ
unfolding select_loop
get_highest_priority queue priority =
    let selected = select_loop queue.entries (queue.count - 1) 1 0 in
    if queue.count == 0 then (false, priority) else (true, priority_at queue.entries selected)

-- The search for the frame to evict, backwards from `index`; `count` stands for no candidate.
unfoldable pub evict_loop : List Entry → ℕ → ℕ → ℕ → ℕ → ℕ
evict_loop entries count priority zero candidate = candidate
evict_loop entries count priority (suc current) candidate =
    evict_loop entries count priority current (
      if leb (priority_at entries current) priority
      then candidate
      else if candidate == count
          || ltb (priority_at entries candidate) (priority_at entries current)
      then current
      else candidate)

unfoldable pub replace_lower_priority : TxQueue → Frame → ℕ → Bool × TxQueue
unfolding evict_loop shift_loop
replace_lower_priority queue frame priority =
    let candidate = evict_loop queue.entries queue.count priority queue.count queue.count in
    let shifted = shift_loop queue.entries (queue.count - 1 - candidate) candidate in
    if not (priority_valid priority)
    then (false, queue)
    else if not (queue.count == capacity)
    then (false, queue)
    else if candidate == queue.count
    then (false, queue)
    else (
      true,
      record queue {
        entries = set shifted (queue.count - 1) (record { frame = frame; priority = priority });
      },
    )
