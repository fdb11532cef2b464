-- ===== src/Can/Bus/Interrupt.antt =====
-- The interrupt handler: it empties the receive FIFO into the receive ring, and drains.
use beamforming_software.Prelude.{
  ℕ, zero, suc, ◌<◌, ◌≤◌, ◌≡◌, ◌≢◌, true, refl, sym, ap, ◌∙◌, subst, arith, false, List, [], ◌∷◌,
  ◌++◌, ◌==◌,
}
use beamforming_software.Can.Protocol.{Frame}
use beamforming_software.Can.RxQueue.{push_isr}
use beamforming_software.Can.RxQueue.Race.{pushes}
use beamforming_software.Can.TxQueue.{TxQueue}
use beamforming_software.Can.TxQueue.Contents.{IsValid, contents}
use beamforming_software.Can.TxQueue.Order.{by_urgency}
use beamforming_software.Can.Bus.{CanHardware, BusState, acknowledge, receive_loop, can_isr}
use beamforming_software.Can.Bus.Laws.{IsBxcan}
use beamforming_software.Can.Bus.Drain.{wire_frames, schedule, IsDrained, drain_tx_queue-IsDrain}

module _ {H : Type 0} (hw : CanHardware H) (laws : IsBxcan hw) where
  -- the `n` frames that the receive FIFO gives next
  abbrev pub arrivals : ℕ → H → List Frame
  arrivals zero h = []
  arrivals (suc n) h = (hw.receive h).0 ∷ arrivals n (hw.receive h).1

  -- What the acknowledgements leave alone.
  record IsAcknowledged (s t : BusState H) : Type 0 where
    same_receive_queue : t.receive_queue ≡ s.receive_queue
    same_transmit_queue : t.transmit_queue ≡ s.transmit_queue
    same_sent : laws.sent t.hardware ≡ laws.sent s.hardware
    same_tx_dropped : t.transmit_dropped ≡ s.transmit_dropped
    same_initialized : t.initialized ≡ s.initialized
    same_available : hw.available t.hardware ≡ hw.available s.hardware

  acknowledge-IsAcknowledged : (s : BusState H) → IsAcknowledged s (acknowledge hw s)
  acknowledge-IsAcknowledged s =
      let cleared = laws.clear_completed_sent s.hardware in
      let overrun = laws.clear_overrun_sent s.hardware in
      let both = laws.clear_overrun_sent (hw.clear_completed s.hardware) in
      let free = laws.clear_completed_available s.hardware in
      let overrun_free = laws.clear_overrun_available s.hardware in
      let both_free = laws.clear_overrun_available (hw.clear_completed s.hardware) in ground arith

  -- What the loop over the FIFO does.
  record IsReceived (n : ℕ) (s t : BusState H) : Type 0 where
    ring : t.receive_queue ≡ pushes s.receive_queue (arrivals n s.hardware)
    same_transmit_queue : t.transmit_queue ≡ s.transmit_queue
    same_sent : laws.sent t.hardware ≡ laws.sent s.hardware
    same_tx_dropped : t.transmit_dropped ≡ s.transmit_dropped
    same_initialized : t.initialized ≡ s.initialized
    same_available : hw.available t.hardware ≡ hw.available s.hardware
    emptied : hw.pending t.hardware ≡ 0

  receive_loop-IsReceived :
      (n : ℕ) (s : BusState H) → hw.pending s.hardware ≡ n → IsReceived n s (receive_loop hw n s)
  unfolding receive_loop pushes
  receive_loop-IsReceived zero s e = record {
    ring = refl;
    same_transmit_queue = refl;
    same_sent = refl;
    same_tx_dropped = refl;
    same_initialized = refl;
    same_available = refl;
    emptied = e;
  }
  receive_loop-IsReceived (suc n) s e =
      let next : BusState H = record s {
        receive_queue = (push_isr s.receive_queue (hw.receive s.hardware).0).1;
        hardware = (hw.receive s.hardware).1;
      } in
      let left : hw.pending (hw.receive s.hardware).1 ≡ n =
        omega (arith, laws.receive_pending s.hardware) in
      let rest = receive_loop-IsReceived n next left in
      let some_pending : (hw.pending s.hardware == 0) ≡ false = ground arith in
      rw some_pending (record {
        ring = rest.ring;
        same_transmit_queue = rest.same_transmit_queue;
        same_sent = rest.same_sent ∙ laws.receive_sent s.hardware;
        same_tx_dropped = rest.same_tx_dropped;
        same_initialized = rest.same_initialized;
        same_available = rest.same_available ∙ laws.receive_available s.hardware;
        emptied = rest.emptied;
      })

  -- the frames that the receive FIFO holds when the handler reads it, the oldest first
  abbrev pub fifo : BusState H → List Frame
  fifo s = let ready = acknowledge hw s in arrivals (hw.pending ready.hardware) ready.hardware

  -- What an interrupt does from `s`: the receive ring has taken the frames of the FIFO, which is
  -- then empty, the schedule is as it was, and nothing more can be handed over.
  pub record IsHandled (s t : BusState H) : Type 0 where
    pub ring : t.receive_queue ≡ pushes s.receive_queue (fifo s)
    pub valid : IsValid t.transmit_queue
    pub same_schedule : schedule hw laws t ≡ schedule hw laws s
    pub same_tx_dropped : t.transmit_dropped ≡ s.transmit_dropped
    pub same_initialized : t.initialized ≡ s.initialized
    pub drained : IsDrained hw laws t
    pub emptied : hw.pending t.hardware ≡ 0
    pub fewer : t.transmit_queue.count ≤ s.transmit_queue.count
    pub progress :
        hw.available s.hardware ≡ true
        → s.transmit_queue.count ≢ 0
        → t.transmit_queue.count < s.transmit_queue.count

  -- On a peripheral that works as documented, with a valid transmit queue, the interrupt handler
  -- empties the FIFO, gives its frames in their order to the receive ring, keeps the schedule of
  -- the frames that are to be sent, ends with the queue empty or the mailboxes full, and with a
  -- mailbox available and some frame queued leaves fewer in the queue.
  pub can_isr-IsHandled : (s : BusState H) → IsValid s.transmit_queue → IsHandled s (can_isr hw s)
  unfolding can_isr
  can_isr-IsHandled s v =
      let ready = acknowledge hw s in
      let n = hw.pending ready.hardware in
      let a = acknowledge-IsAcknowledged s in
      let r = receive_loop-IsReceived n ready refl in
      let t = receive_loop hw n ready in
      let tx : t.transmit_queue ≡ s.transmit_queue =
        r.same_transmit_queue ∙ a.same_transmit_queue in
      let d = drain_tx_queue-IsDrain hw laws t (subst IsValid (sym tx) v) in
      record {
        ring =
            d.transmission.same_receive_queue
            ∙ (r.ring ∙ ap (λ q. pushes q (arrivals n ready.hardware)) a.same_receive_queue);
        valid = d.valid;
        same_schedule =
            d.same_schedule
            ∙ (λ k. (r.same_sent ∙ a.same_sent) k ++ wire_frames (by_urgency (contents (tx k))));
        same_tx_dropped = d.transmission.same_tx_dropped ∙ (r.same_tx_dropped ∙ a.same_tx_dropped);
        same_initialized =
            d.transmission.same_initialized ∙ (r.same_initialized ∙ a.same_initialized);
        drained = d.drained;
        emptied = d.transmission.same_pending ∙ r.emptied;
        fewer = subst (λ (q : TxQueue). (can_isr hw s).transmit_queue.count ≤ q.count) tx d.fewer;
        progress = λ free some_queued.
            subst (λ (q : TxQueue). (can_isr hw s).transmit_queue.count < q.count) tx
              (d.progress (r.same_available ∙ (a.same_available ∙ free))
                (λ e. some_queued (ap (λ (q : TxQueue). q.count) (sym tx) ∙ e)));
      }
