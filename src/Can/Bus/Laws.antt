-- ===== src/Can/Bus/Laws.antt =====
-- What the proofs rely on of the CAN peripheral and of libopencm3's driver, by their documentation.
use beamforming_software.Prelude.{ℕ, ◌-◌, ◌≤◌, ◌≡◌, true, false, List, [], ◌∷◌, ◌++◌}
use beamforming_software.Can.Protocol.{Frame}
use beamforming_software.Can.Bus.{CanHardware}

-- `can_transmit` takes a frame exactly if a mailbox is available, and does nothing otherwise.
-- `sent` is the list of the frames that mailboxes took, oldest first. `unannounced` is the number
-- of empty mailboxes whose completion flag is clear: taking a frame makes none, and while there
-- is none, an available mailbox is one whose completion flag asks for the interrupt. The
-- acknowledgements and the receive FIFO do not touch the mailboxes, a transmission does not touch
-- the FIFO, and a release of the FIFO frees one frame.
pub record IsBxcan {H : Type 0} (hw : CanHardware H) : Type 0 where
  pub sent : H → List Frame
  pub unannounced : H → ℕ
  pub transmit_free :
      (f : Frame) (h : H)
      → hw.available h ≡ true
      → ((hw.transmit f h).0 ≡ true) × (sent (hw.transmit f h).1 ≡ sent h ++ f ∷ [])
  pub transmit_busy : (f : Frame) (h : H) → hw.available h ≡ false → hw.transmit f h ≡ (false, h)
  pub transmit_unannounced : (f : Frame) (h : H) → unannounced (hw.transmit f h).1 ≤ unannounced h
  pub busy_unannounced : (h : H) → hw.available h ≡ false → unannounced h ≡ 0
  pub announced : (h : H) → hw.available h ≡ true → unannounced h ≡ 0 → hw.tx_completed h ≡ true
  pub clear_completed_sent : (h : H) → sent (hw.clear_completed h) ≡ sent h
  pub clear_overrun_sent : (h : H) → sent (hw.clear_overrun h) ≡ sent h
  pub receive_sent : (h : H) → sent (hw.receive h).1 ≡ sent h
  pub clear_completed_available : (h : H) → hw.available (hw.clear_completed h) ≡ hw.available h
  pub clear_overrun_available : (h : H) → hw.available (hw.clear_overrun h) ≡ hw.available h
  pub receive_available : (h : H) → hw.available (hw.receive h).1 ≡ hw.available h
  pub transmit_pending : (f : Frame) (h : H) → hw.pending (hw.transmit f h).1 ≡ hw.pending h
  pub receive_pending : (h : H) → hw.pending (hw.receive h).1 ≡ hw.pending h - 1
