-- ===== src/Can/Bus.antt =====
-- stm32/app/src/can/bus.c: the queues joined to the CAN peripheral. What the program calls of
-- libopencm3's CAN driver is a record of functions on a state of the peripheral. The static
-- variables are a record. Main masks interrupts around its changes of the transmit queue and the
-- interrupt handler runs to its end, so each operation is one step. The pointers are never NULL.
pub mod Laws
pub mod Drain
pub mod Send
pub mod Interrupt
pub mod Steps
pub mod Delivery
pub mod Mailboxes
mod Tests
use beamforming_software.Prelude.{
  ℕ, zero, suc, ◌+◌, ◌-◌, Bool, true, false, List, [], ◌∷◌, ◌++◌, Option, none, some, not, ◌&&◌,
  ◌||◌, ltb, leb, ◌==◌, if◌then◌else◌, take, replicate, u16, uint16_max,
}
use beamforming_software.Can.Protocol.{
  Frame, zero_frame, max_data_length, extended_id_max, node_min, node_max,
}
use beamforming_software.Can.RxQueue as Rx
use beamforming_software.Can.RxQueue.{RxQueue, push_isr, pop}
use beamforming_software.Can.TxQueue
use beamforming_software.Can.TxQueue.{
  TxQueue, priority_valid, push, peek_highest, remove, get_highest_priority, replace_lower_priority,
}
use beamforming_software.Can.Filter.{Bank, filter_configure}

-- libopencm3's calls and the register reads of bus.c, on a state `H` of the peripheral:
-- `reset_init` is `can_reset` and `can_init` with the pins, the clocks and the bit timing of
-- bus.c, and says whether it succeeded; `enable_irq` is `can_enable_irq` and the two calls on the
-- NVIC; `transmit` is `can_transmit` of an extended data frame, and says whether a mailbox took
-- it; `available` is `can_available_mailbox`; `pending` and `receive` are `can_fifo_pending` and
-- `can_receive` on FIFO 0.
pub record CanHardware (H : Type 0) : Type 0 where
  pub reset_init : H → Bool × H
  pub filter_init : Bank → H → H
  pub enable_irq : H → H
  pub transmit : Frame → H → Bool × H
  pub available : H → Bool
  pub pending : H → ℕ
  pub receive : H → Frame × H
  pub tx_completed : H → Bool
  pub clear_completed : H → H
  pub overrun : H → Bool
  pub clear_overrun : H → H
  pub bus_off : H → Bool

-- the static variables, and the peripheral
pub record BusState (H : Type 0) : Type 0 where
  pub receive_queue : RxQueue
  pub transmit_queue : TxQueue
  pub hardware_rx_dropped : ℕ
  pub transmit_dropped : ℕ
  pub initialized : Bool
  pub hardware : H

abbrev pub saturating_add_u16 : ℕ → ℕ → ℕ
saturating_add_u16 left right =
    if ltb (u16 (uint16_max - left)) right then uint16_max else u16 (left + right)

abbrev pub increment_saturating : ℕ → ℕ
increment_saturating counter = if not (counter == uint16_max) then counter + 1 else counter

-- What `can_transmit` is given: the bytes of the frame in a zeroed array.
abbrev pub wire_frame : Frame → Frame
wire_frame frame = record {
  id = frame.id;
  extended = true;
  remote = false;
  dlc = frame.dlc;
  payload = take frame.dlc frame.payload ++ replicate (max_data_length - frame.dlc) 0;
}

module _ {H : Type 0} (hw : CanHardware H) where
  abbrev pub try_transmit_frame : Frame → BusState H → Bool × BusState H
  try_transmit_frame frame s =
      let (taken, hardware) = hw.transmit (wire_frame frame) s.hardware in
      (taken, record s { hardware = hardware })

  -- One round of the drain: whether a frame was handed over, after which it is removed.
  unfoldable pub drain_round : BusState H → Bool × BusState H
  drain_round s =
      let (found, frame, entry_index) = peek_highest s.transmit_queue zero_frame 0 in
      let (taken, s') = try_transmit_frame frame s in
      if s.transmit_queue.count == 0 || not (hw.available s.hardware)
      then (false, s)
      else if not found
      then (false, s)
      else if not taken
      then (false, s')
      else (true, record s' { transmit_queue = remove s'.transmit_queue entry_index })

  -- The loop, on rounds; it ends by itself at the latest when the queue is empty.
  unfoldable pub drain_loop : ℕ → BusState H → BusState H
  drain_loop zero s = s
  drain_loop (suc rounds) s =
      let (sent, s') = drain_round s in elim sent [ true ↦ drain_loop rounds s' | false ↦ s' ]

  unfoldable pub drain_tx_queue : BusState H → BusState H
  drain_tx_queue s = drain_loop s.transmit_queue.count s

  -- `can_bus_drain_one_tx_frame_locked`, which has the body of the loop
  abbrev pub drain_one_tx_frame : BusState H → Bool × BusState H
  drain_one_tx_frame s = drain_round s

  abbrev pub init_filters : List Bank → H → H
  init_filters [] h = h
  init_filters (b ∷ bs) h = init_filters bs (hw.filter_init b h)

  -- `can_bus_setup` after `can_filter_configure`
  abbrev pub start_interrupts : Option (List Bank) → BusState H → Bool × BusState H
  start_interrupts none s = (false, s)
  start_interrupts (some banks) s = (
    true,
    record s { hardware = hw.enable_irq (init_filters banks s.hardware); initialized = true },
  )

  unfoldable pub setup : ℕ → BusState H → Bool × BusState H
  setup self_node s =
      let (started, hardware) = hw.reset_init s.hardware in
      let cleared : BusState H = record {
        receive_queue = Rx.init s.receive_queue;
        transmit_queue = TxQueue.init s.transmit_queue;
        hardware_rx_dropped = 0;
        transmit_dropped = 0;
        initialized = false;
        hardware = hardware;
      } in
      if ltb self_node node_min || ltb node_max self_node
      then (false, s)
      else if not started
      then (false, cleared)
      else start_interrupts (filter_configure self_node) cleared

  -- What `*frame` holds afterwards is the second part.
  unfoldable pub receive : Frame → BusState H → Bool × Frame × BusState H
  receive frame s =
      let (found, popped, queue) = pop s.receive_queue frame in
      if not s.initialized
      then (false, frame, s)
      else (found, popped, record s { receive_queue = queue })

  -- push, and drain if the queue took the frame
  unfoldable pub enqueue_and_drain : Frame → ℕ → BusState H → Bool × BusState H
  enqueue_and_drain frame priority s =
      let (accepted, queue) = push s.transmit_queue frame priority in
      let queued : BusState H = record s { transmit_queue = queue } in
      if accepted then (true, drain_tx_queue queued) else (false, queued)

  -- a full queue and an available mailbox
  unfoldable pub send_with_mailbox : Frame → ℕ → ℕ → BusState H → Bool × BusState H
  send_with_mailbox frame priority queued_priority s =
      let (drained, s') = drain_one_tx_frame s in
      if ltb priority queued_priority
      then try_transmit_frame frame s
      else if drained
      then enqueue_and_drain frame priority s'
      else (false, s')

  unfoldable pub send_when_full : Frame → ℕ → BusState H → Bool × BusState H
  send_when_full frame priority s =
      let (found, queued_priority) = get_highest_priority s.transmit_queue 0 in
      let (accepted, queue) = replace_lower_priority s.transmit_queue frame priority in
      if hw.available s.hardware && found
      then send_with_mailbox frame priority queued_priority s
      else (
        accepted,
        record s {
          transmit_queue = queue;
          transmit_dropped = increment_saturating s.transmit_dropped;
        },
      )

  -- what follows the attempt to send past an empty queue
  unfoldable pub send_queued : Frame → ℕ → BusState H → Bool × BusState H
  send_queued frame priority s =
      if ltb s.transmit_queue.count TxQueue.capacity
      then enqueue_and_drain frame priority s
      else send_when_full frame priority s

  -- the guards of `can_bus_send`
  abbrev pub sendable : Frame → ℕ → BusState H → Bool
  sendable frame priority s = not (
      not s.initialized
      || (not frame.extended
          || (frame.remote
              || (ltb extended_id_max frame.id
                  || (ltb max_data_length frame.dlc || not (priority_valid priority))))))

  unfoldable pub send : Frame → ℕ → BusState H → Bool × BusState H
  send frame priority s =
      let (taken, s') = try_transmit_frame frame s in
      if not (sendable frame priority s)
      then (false, s)
      else if s.transmit_queue.count == 0
      then (if taken then (true, s') else send_queued frame priority s')
      else send_queued frame priority s

  abbrev pub rx_dropped : BusState H → ℕ
  rx_dropped s = saturating_add_u16 s.hardware_rx_dropped (Rx.dropped s.receive_queue)

  abbrev pub tx_dropped : BusState H → ℕ
  tx_dropped s = s.transmit_dropped

  abbrev pub is_bus_off : BusState H → Bool
  is_bus_off s = s.initialized && hw.bus_off s.hardware

  -- the loop over the receive FIFO, on rounds
  unfoldable pub receive_loop : ℕ → BusState H → BusState H
  receive_loop zero s = s
  receive_loop (suc rounds) s =
      let (frame, hardware) = hw.receive s.hardware in
      let rest =
        receive_loop rounds
          (record s { receive_queue = (push_isr s.receive_queue frame).1; hardware = hardware }) in
      if hw.pending s.hardware == 0 then s else rest

  -- `cec_can_isr` up to its loop
  abbrev pub acknowledge : BusState H → BusState H
  acknowledge s =
      let completed : BusState H =
        if hw.tx_completed s.hardware
        then record s { hardware = hw.clear_completed s.hardware }
        else s in
      if hw.overrun completed.hardware
      then record completed {
        hardware_rx_dropped = increment_saturating completed.hardware_rx_dropped;
        hardware = hw.clear_overrun completed.hardware;
      }
      else completed

  unfoldable pub can_isr : BusState H → BusState H
  can_isr s =
      let ready = acknowledge s in drain_tx_queue (receive_loop (hw.pending ready.hardware) ready)
