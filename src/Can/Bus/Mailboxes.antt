-- ===== src/Can/Bus/Mailboxes.antt =====
-- A concrete peripheral with counted mailboxes, which works as the proofs assume.
use beamforming_software.Prelude.{
  ℕ, ◌+◌, ◌-◌, ◌≡◌, refl, arith, Bool, true, false, List, [], ◌∷◌, ◌++◌, not, ◌==◌, if◌then◌else◌,
  replicate, length,
}
use beamforming_software.Can.Protocol.{Frame, zero_frame}
use beamforming_software.Can.TxQueue as Tx
use beamforming_software.Can.TxQueue.{TxQueue, zero_entry}
use beamforming_software.Can.Bus.{CanHardware, BusState}
use beamforming_software.Can.Bus.Laws.{IsBxcan}

-- The empty mailboxes with their completion flag set and clear, what was taken, and the FIFO.
pub record Mailboxes : Type 0 where
  pub announced : ℕ
  pub quiet : ℕ
  pub taken : List Frame
  pub fifo : List Frame
  pub lost : Bool

abbrev take_mailbox : Frame → Mailboxes → Mailboxes
take_mailbox f h = record h {
  announced = if h.quiet == 0 then h.announced - 1 else h.announced;
  quiet = h.quiet - 1;
  taken = h.taken ++ f ∷ [];
}

abbrev first_frame : List Frame → Frame
first_frame [] = zero_frame
first_frame (f ∷ fs) = f

abbrev later_frames : List Frame → List Frame
later_frames [] = []
later_frames (f ∷ fs) = fs

abbrev pub boxes : CanHardware Mailboxes
boxes = record {
  reset_init = λ h. (true, record h { announced = 0; quiet = 3 });
  filter_init = λ b h. h;
  enable_irq = λ h. h;
  transmit = λ f h. if h.announced + h.quiet == 0 then (false, h) else (true, take_mailbox f h);
  available = λ h. not (h.announced + h.quiet == 0);
  pending = λ h. length h.fifo;
  receive = λ h. (first_frame h.fifo, record h { fifo = later_frames h.fifo });
  tx_completed = λ h. not (h.announced == 0);
  clear_completed = λ h. record h { announced = 0; quiet = h.announced + h.quiet };
  overrun = λ h. h.lost;
  clear_overrun = λ h. record h { lost = false };
  bus_off = λ h. false;
}

length-later_frames : (fs : List Frame) → length (later_frames fs) ≡ length fs - 1
length-later_frames [] = refl
length-later_frames (f ∷ fs) = omega arith

pub boxes-IsBxcan : IsBxcan boxes
boxes-IsBxcan = record {
  sent = λ h. h.taken;
  unannounced = λ h. h.quiet;
  transmit_free = λ f h e. ground arith;
  transmit_busy = λ f h e. ground arith;
  transmit_unannounced = λ f h. ground arith;
  busy_unannounced = λ h e. ground arith;
  announced = λ h e none_quiet. ground arith;
  clear_completed_sent = λ h. refl;
  clear_overrun_sent = λ h. refl;
  receive_sent = λ h. refl;
  clear_completed_available = λ h. ground arith;
  clear_overrun_available = λ h. refl;
  receive_available = λ h. refl;
  transmit_pending = λ f h. ground arith;
  receive_pending = λ h. length-later_frames h.fifo;
}

-- a mailbox empties, with its completion flag set
abbrev pub freed : Mailboxes → Mailboxes
freed h = record h { announced = 1 }

pub freed_sent : (h : Mailboxes) → boxes-IsBxcan.sent (freed h) ≡ boxes-IsBxcan.sent h
unfolding boxes-IsBxcan
freed_sent h = refl

abbrev pub unset : BusState Mailboxes
unset = record {
  receive_queue = record { frames = replicate 8 zero_frame; head = 0; tail = 0; dropped = 0 };
  transmit_queue = record { entries = replicate Tx.capacity zero_entry; count = 0 };
  hardware_rx_dropped = 0;
  transmit_dropped = 0;
  initialized = false;
  hardware = record { announced = 0; quiet = 0; taken = []; fifo = zero_frame ∷ []; lost = true };
}
