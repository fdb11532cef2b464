-- ===== src/Can/Bus/Steps.antt =====
-- Histories of the bus: main sends and receives, the interrupt handler runs, and the peripheral
-- works, in any order.
use beamforming_software.Prelude.{
  ℕ, ◌≤◌, ◌≡◌, ◌≢◌, inl, inr, refl, sym, ap, ◌∙◌, subst, arith, Bool, true, false, List, ◌||◌, ltb,
  Option, none, some, length,
}
use beamforming_software.Can.Protocol.{Frame, node_min, node_max}
use beamforming_software.Can.RxQueue as Rx
use beamforming_software.Can.RxQueue.{RxQueue, pop}
use beamforming_software.Can.RxQueue.Refine
use beamforming_software.Can.RxQueue.Race.{pushes-IsValid}
use beamforming_software.Can.TxQueue
use beamforming_software.Can.TxQueue.Contents.{IsValid, length-contents, init-IsValid}
use beamforming_software.Can.Filter.{Bank, filter_configure}
use beamforming_software.Can.Bus.{
  CanHardware, BusState, setup, start_interrupts, receive, send, can_isr,
}
use beamforming_software.Can.Bus.Laws.{IsBxcan}
use beamforming_software.Can.Bus.Drain.{IsDrained}
use beamforming_software.Can.Bus.Send.{IsAccepted, IsReplaced, IsRefused}
use beamforming_software.Can.Bus.Send.Every.{send-Sent}
use beamforming_software.Can.Bus.Interrupt.{fifo, can_isr-IsHandled}

module _ {H : Type 0} (hw : CanHardware H) (laws : IsBxcan hw) where
  -- One step. The peripheral may do anything on its own but take a frame, or leave a mailbox empty
  -- without raising its completion flag.
  pub data Step (s : BusState H) : BusState H → Type 0 where
    sends : (f : Frame) (p : ℕ) → Step s (send hw f p s).1
    receives : (f : Frame) → Step s (receive hw f s).2
    interrupts : Step s (can_isr hw s)
    works :
        (h : H)
        → laws.sent h ≡ laws.sent s.hardware
        → laws.unannounced h ≤ laws.unannounced s.hardware
        → Step s (record s { hardware = h })

  -- From a successful set-up.
  pub data Reach (node : ℕ) : BusState H → Type 0 where
    start : (s : BusState H) → (setup hw node s).0 ≡ true → Reach node (setup hw node s).1
    later : {s t : BusState H} → Reach node s → Step s t → Reach node t

  -- Both queues are well formed, and a mailbox that is empty while frames are queued has its
  -- completion flag set.
  pub record IsSound (s : BusState H) : Type 0 where
    pub ring : Refine.IsValid s.receive_queue
    pub queue : IsValid s.transmit_queue
    pub ready : s.initialized ≡ true
    pub announced : s.transmit_queue.count ≢ 0 → laws.unannounced s.hardware ≡ 0

  IsDrained-announced :
      (s : BusState H)
      → IsDrained hw laws s
      → s.transmit_queue.count ≢ 0
      → laws.unannounced s.hardware ≡ 0
  IsDrained-announced s (inl e) h = absurd (h e)
  IsDrained-announced s (inr busy) h = laws.busy_unannounced s.hardware busy

  accepted-IsSound :
      (f : Frame) (p : ℕ) (s t : BusState H) → IsSound s → IsAccepted hw laws f p s t → IsSound t
  accepted-IsSound f p s t i a =
      let fewer = a.transmission.fewer_unannounced in
      record {
        ring = subst Refine.IsValid (sym a.transmission.same_receive_queue) i.ring;
        queue = a.valid;
        ready = a.transmission.same_initialized ∙ i.ready;
        announced = λ h. elim a.not_stranded [
          | inl d ↦ IsDrained-announced t d h
          | inr some_queued ↦ omega (arith, i.announced some_queued)
        ];
      }

  replaced-IsSound :
      (f : Frame) (p : ℕ) (s t : BusState H)
      → IsSound s
      → s.transmit_queue.count ≡ TxQueue.capacity
      → IsReplaced hw laws f p s t
      → IsSound t
  replaced-IsSound f p s t i full r =
      let same = r.rest in
      record {
        ring = subst Refine.IsValid (sym (ap (λ (u : BusState H). u.receive_queue) same)) i.ring;
        queue = r.valid;
        ready = ap (λ (u : BusState H). u.initialized) same ∙ i.ready;
        announced = λ h.
            ap (λ (u : BusState H). laws.unannounced u.hardware) same
            ∙ i.announced (λ e. absurd (omega arith));
      }

  refused-IsSound :
      (f : Frame) (p : ℕ) (s t : BusState H) → IsSound s → IsRefused hw laws f p s t → IsSound t
  refused-IsSound f p s t i r =
      subst IsSound (sym r.rest)
        (record { ring = i.ring; queue = i.queue; ready = i.ready; announced = i.announced })

  send-IsSound : (f : Frame) (p : ℕ) (s : BusState H) → IsSound s → IsSound (send hw f p s).1
  send-IsSound f p s i = elim (send-Sent hw laws f p s i.queue) [
    | inr (_, same) ↦ subst IsSound (sym (ap (λ (r : Bool × BusState H). r.1) same)) i
    | inl (_, inl (_, a)) ↦ accepted-IsSound f p s (send hw f p s).1 i a
    | inl (_, inr (inl (full, _, r))) ↦ replaced-IsSound f p s (send hw f p s).1 i full.0 r
    | inl (_, inr (inr (_, _, r))) ↦ refused-IsSound f p s (send hw f p s).1 i r
  ]

  receive-IsSound : (f : Frame) (s : BusState H) → IsSound s → IsSound (receive hw f s).2
  unfolding receive
  receive-IsSound f s i =
      let out : (receive hw f s).2 ≡ record s { receive_queue = (pop s.receive_queue f).2 } =
        rw i.ready refl in
      subst IsSound (sym out) (record {
        ring = Refine.pop-IsValid s.receive_queue f i.ring;
        queue = i.queue;
        ready = i.ready;
        announced = i.announced;
      })

  can_isr-IsSound : (s : BusState H) → IsSound s → IsSound (can_isr hw s)
  can_isr-IsSound s i =
      let h = can_isr-IsHandled hw laws s i.queue in
      record {
        ring =
            subst Refine.IsValid (sym h.ring)
              (pushes-IsValid s.receive_queue (fifo hw laws s) i.ring);
        queue = h.valid;
        ready = h.same_initialized ∙ i.ready;
        announced = IsDrained-announced (can_isr hw s) h.drained;
      }

  pub Step-IsSound : {s t : BusState H} → Step s t → IsSound s → IsSound t
  Step-IsSound {s} (sends f p) i = send-IsSound f p s i
  Step-IsSound {s} (receives f) i = receive-IsSound f s i
  Step-IsSound {s} interrupts i = can_isr-IsSound s i
  Step-IsSound {s} (works h same fewer) i = record {
    ring = i.ring;
    queue = i.queue;
    ready = i.ready;
    announced = λ some_queued. omega (arith, i.announced some_queued);
  }

  start_interrupts-IsSound :
      (banks : Option (List Bank)) (s : BusState H)
      → Refine.IsValid s.receive_queue
      → IsValid s.transmit_queue
      → s.transmit_queue.count ≡ 0
      → (start_interrupts hw banks s).0 ≡ true
      → IsSound (start_interrupts hw banks s).1
  start_interrupts-IsSound none s ring queue none_queued e = absurd cc
  start_interrupts-IsSound (some banks) s ring queue none_queued e = record {
    ring = ring;
    queue = queue;
    ready = refl;
    announced = λ some_queued. absurd (some_queued none_queued);
  }

  -- Set-up from any state, the queues' earlier contents being forgotten.
  abbrev cleared : BusState H → BusState H
  cleared s = record {
    receive_queue = Rx.init s.receive_queue;
    transmit_queue = TxQueue.init s.transmit_queue;
    hardware_rx_dropped = 0;
    transmit_dropped = 0;
    initialized = false;
    hardware = (hw.reset_init s.hardware).1;
  }

  setup-IsSound :
      (node : ℕ) (s : BusState H) → (setup hw node s).0 ≡ true → IsSound (setup hw node s).1
  unfolding setup
  setup-IsSound node s e =
      let ok : (ltb node node_min || ltb node_max node) ≡ false = ground arith in
      let (valid, empty) = init-IsValid s.transmit_queue in
      let started : (hw.reset_init s.hardware).0 ≡ true = ground arith in
      let out : setup hw node s ≡ start_interrupts hw (filter_configure node) (cleared s) =
        ground arith in
      subst (λ (r : Bool × BusState H). IsSound r.1) (sym out)
        (start_interrupts-IsSound (filter_configure node) (cleared s)
          (Refine.init-IsValid s.receive_queue).0 valid
          (sym (length-contents (TxQueue.init s.transmit_queue) valid) ∙ ap length empty)
          (sym (ap (λ (r : Bool × BusState H). r.0) out) ∙ e))

  pub Reach-IsSound : {node : ℕ} {s : BusState H} → Reach node s → IsSound s
  Reach-IsSound {node} (start s e) = setup-IsSound node s e
  Reach-IsSound (later r step) = Step-IsSound step (Reach-IsSound r)

  -- On a peripheral that works as documented, however main's calls, the interrupts and the
  -- peripheral's own work follow each other after a
  -- successful set-up, both queues are well formed, and when frames are queued and a mailbox is
  -- available, the peripheral asks for the interrupt that drains the queue.
  pub never_stranded :
      {node : ℕ} {s : BusState H}
      → Reach node s
      → Refine.IsValid s.receive_queue
        × IsValid s.transmit_queue
        × (s.transmit_queue.count ≢ 0
            → hw.available s.hardware ≡ true
            → hw.tx_completed s.hardware ≡ true)
  never_stranded {s = s} r =
      let i = Reach-IsSound r in
      (i.ring, i.queue, λ some_queued ha. laws.announced s.hardware ha (i.announced some_queued))
