-- ===== src/Can/Bus/Tests.antt =====
-- Instances of the bus driver's theorems, on a peripheral with counted mailboxes.
use beamforming_software.Prelude.{
  ℕ, zero, suc, ◌≡◌, ◌≢◌, ◌⊎◌, refl, arith, true, false, [], ◌∷◌, ◌++◌, replicate,
}
use beamforming_software.Can.Protocol.{Frame}
use beamforming_software.Can.RxQueue.Refine
use beamforming_software.Can.TxQueue as Tx
use beamforming_software.Can.TxQueue.{TxQueue, zero_entry}
use beamforming_software.Can.TxQueue.Contents.{IsValid}
use beamforming_software.Can.Filter.{filter_configure}
use beamforming_software.Can.Bus.Drain.{wire_frames, backlog}
use beamforming_software.Can.Bus.Delivery.{Interrupted, no_interrupt, one_more, interrupts_deliver}
use beamforming_software.Can.Bus.{BusState, setup, send, sendable, can_isr}
use beamforming_software.Can.Bus.Mailboxes.{
  Mailboxes, boxes, boxes-IsBxcan, freed, freed_sent, unset,
}
use beamforming_software.Can.Bus.Send.{Sent}
use beamforming_software.Can.Bus.Send.Every.{send-Sent}
use beamforming_software.Can.Bus.Interrupt.{IsHandled, can_isr-IsHandled}
use beamforming_software.Can.Bus.Steps.{sends, interrupts, Reach, start, later, never_stranded}

abbrev response : Frame
response = record {
  id = 0x1c701234;
  extended = true;
  remote = false;
  dlc = 3;
  payload = 4 ∷ 0 ∷ 1 ∷ 0 ∷ 0 ∷ 0 ∷ 0 ∷ 0 ∷ [];
}

-- all mailboxes in use, the queue full of statuses, and a frame in the FIFO
abbrev crowded : BusState Mailboxes
crowded = record unset {
  transmit_queue = record {
    entries = replicate Tx.capacity (record { frame = response; priority = 2 });
    count = Tx.capacity;
  };
  initialized = true;
}

crowded-IsValid : IsValid crowded.transmit_queue
crowded-IsValid = record { slots = refl; bounded = omega arith }

send-Sent_example :
    ((sendable boxes response 0 crowded ≡ true)
      × Sent boxes boxes-IsBxcan response 0 crowded (send boxes response 0 crowded))
    ⊎ ((sendable boxes response 0 crowded ≡ false)
        × (send boxes response 0 crowded ≡ (false, crowded)))
send-Sent_example = send-Sent boxes boxes-IsBxcan response 0 crowded crowded-IsValid

can_isr-IsHandled_example : IsHandled boxes boxes-IsBxcan crowded (can_isr boxes crowded)
can_isr-IsHandled_example = can_isr-IsHandled boxes boxes-IsBxcan crowded crowded-IsValid

setup_succeeds : (setup boxes 7 unset).0 ≡ true
unfolding setup filter_configure
setup_succeeds = refl

-- set up as node 7, with a frame sent and an interrupt
abbrev after_interrupt : BusState Mailboxes
after_interrupt = can_isr boxes (send boxes response 1 (setup boxes 7 unset).1).1

after_interrupt-Reach : Reach boxes boxes-IsBxcan 7 after_interrupt
after_interrupt-Reach = later (later (start unset setup_succeeds) (sends response 1)) interrupts

never_stranded_example :
    Refine.IsValid after_interrupt.receive_queue
    × IsValid after_interrupt.transmit_queue
    × (after_interrupt.transmit_queue.count ≢ 0
        → boxes.available after_interrupt.hardware ≡ true
        → boxes.tx_completed after_interrupt.hardware ≡ true)
never_stranded_example = never_stranded boxes boxes-IsBxcan after_interrupt-Reach

-- the crowded bus after interrupts with a mailbox each
abbrev relieved : ℕ → BusState Mailboxes
relieved zero = crowded
relieved (suc n) = can_isr boxes (record (relieved n) { hardware = freed (relieved n).hardware })

relieved-Interrupted : (n : ℕ) → Interrupted boxes boxes-IsBxcan crowded n (relieved n)
relieved-Interrupted zero = no_interrupt
relieved-Interrupted (suc n) =
    one_more (relieved-Interrupted n) (freed (relieved n).hardware)
      (freed_sent (relieved n).hardware) (ground arith)

interrupts_deliver_example :
    ((relieved 8).transmit_queue.count ≡ 0)
    × ((relieved 8).transmit_dropped ≡ 0)
    × (boxes-IsBxcan.sent (relieved 8).hardware
        ≡ boxes-IsBxcan.sent crowded.hardware ++ wire_frames (backlog boxes boxes-IsBxcan crowded))
interrupts_deliver_example =
    interrupts_deliver boxes boxes-IsBxcan crowded-IsValid (omega arith) (relieved-Interrupted 8)
