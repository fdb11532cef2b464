-- ===== src/Can/Bus/Send/Every.antt =====
-- `can_bus_send` on every branch.
use beamforming_software.Prelude.{
  ℕ, ◌<◌, ◌≡◌, ◌⊎◌, inl, inr, refl, sym, ap, subst, arith, Bool, true, false, [], ◌∷◌, Bool-cases,
  ℕ_discrete, dec_lt,
}
use beamforming_software.Can.Protocol.{Frame}
use beamforming_software.Can.TxQueue
use beamforming_software.Can.TxQueue.{
  TxQueue, Entry, zero_entry, priority_at, priority_count, push, get_highest_priority,
  replace_lower_priority,
}
use beamforming_software.Can.TxQueue.Contents.{IsValid}
use beamforming_software.Can.TxQueue.Order.{insert_last, by_urgency}
use beamforming_software.Can.Bus.{
  CanHardware, BusState, wire_frame, try_transmit_frame, enqueue_and_drain, send_when_full,
  send_queued, sendable, send,
}
use beamforming_software.Can.Bus.Laws.{IsBxcan}
use beamforming_software.Can.Bus.Drain.{backlog}
use beamforming_software.Can.Bus.Send.{
  incoming, Sent, enqueue-IsAccepted, transmit_taken, transmit-IsAccepted,
}
use beamforming_software.Can.Bus.Send.Full.{when_full-Sent}

module _ {H : Type 0} (hw : CanHardware H) (laws : IsBxcan hw) (frame : Frame) (priority : ℕ) where
  queued-Sent :
      (s : BusState H)
      → IsValid s.transmit_queue
      → priority < priority_count
      → Sent hw laws frame priority s (send_queued hw frame priority s)
  unfolding send_queued
  queued-Sent s v hp = elim (dec_lt s.transmit_queue.count TxQueue.capacity) [
    | yes room ↦
        let (accepted, a, d) = enqueue-IsAccepted hw laws frame priority s v hp room in
        let out : send_queued hw frame priority s ≡ enqueue_and_drain hw frame priority s =
          ground arith in
        subst (Sent hw laws frame priority s) (sym out) (inl (accepted, a))
    | no full ↦
        let out : send_queued hw frame priority s ≡ send_when_full hw frame priority s =
          ground arith in
        subst (Sent hw laws frame priority s) (sym out)
          (when_full-Sent hw laws frame priority s v hp (omega arith))
  ]

  sendable-priority :
      (s : BusState H) → sendable hw frame priority s ≡ true → priority < priority_count
  sendable-priority s e = ground arith

  nothing_queued : (s : BusState H) → s.transmit_queue.count ≡ 0 → backlog hw laws s ≡ []
  unfolding by_urgency
  nothing_queued s e = rw e refl

  -- On a peripheral that works as documented, with a valid transmit queue, a frame that may be
  -- sent is taken into the schedule in the order of urgency, unless the mailboxes and the queue
  -- are full. Then one frame is dropped and counted: the last of the backlog if it is less
  -- urgent, and else the frame itself. What may not be sent is refused, and changes nothing.
  pub send-Sent :
      (s : BusState H)
      → IsValid s.transmit_queue
      → ((sendable hw frame priority s ≡ true)
          × Sent hw laws frame priority s (send hw frame priority s))
        ⊎ ((sendable hw frame priority s ≡ false) × (send hw frame priority s ≡ (false, s)))
  unfolding send
  send-Sent s v = elim (Bool-cases (sendable hw frame priority s)) [
    | inr refused ↦ inr (refused, rw refused)
    | inl good ↦
        let hp = sendable-priority s good in
        let queued = queued-Sent s v hp in
        elim (ℕ_discrete s.transmit_queue.count 0) [
          | no some_queued ↦
              let out : send hw frame priority s ≡ send_queued hw frame priority s = ground arith in
              inl (good, subst (Sent hw laws frame priority s) (sym out) queued)
          | yes none_queued ↦ elim (Bool-cases (hw.available s.hardware)) [
            | inl ha ↦
                let gone = transmit_taken hw laws frame priority s ha in
                let out : send hw frame priority s ≡ (
                  true,
                  record s { hardware = (hw.transmit (wire_frame frame) s.hardware).1 },
                ) =
                  ground arith in
                let first : insert_last (incoming hw laws frame priority) (backlog hw laws s)
                    ≡ (incoming hw laws frame priority) ∷ backlog hw laws s =
                  rw (nothing_queued s none_queued) in
                inl (
                  good,
                  subst (Sent hw laws frame priority s) (sym out) (
                      inl (
                        refl,
                        transmit-IsAccepted hw laws frame priority s v ha first (inl none_queued),
                      )),
                )
            | inr busy ↦
                let kept : try_transmit_frame hw frame s ≡ (false, s) =
                  ap (λ (r : Bool × H). (r.0, record s { hardware = r.1 }))
                    (laws.transmit_busy (wire_frame frame) s.hardware busy) in
                let out : send hw frame priority s ≡ send_queued hw frame priority s =
                  ground arith in
                inl (good, subst (Sent hw laws frame priority s) (sym out) queued)
          ]
        ]
  ]
