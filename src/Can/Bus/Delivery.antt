-- ===== src/Can/Bus/Delivery.antt =====
-- Interrupts deliver what is queued: each that finds a mailbox available hands over the next
-- frames.
use beamforming_software.Prelude.{
  ℕ, suc, ◌+◌, ◌≤◌, ◌≡◌, ◌≢◌, refl, sym, ap, ◌∙◌, arith, true, ◌++◌, append-nil, ℕ_discrete,
}
use beamforming_software.Can.TxQueue.Contents.{IsValid}
use beamforming_software.Can.TxQueue.Order.{by_urgency}
use beamforming_software.Can.Bus.{CanHardware, BusState, can_isr}
use beamforming_software.Can.Bus.Laws.{IsBxcan}
use beamforming_software.Can.Bus.Drain.{schedule, wire_frames, backlog}
use beamforming_software.Can.Bus.Interrupt.{can_isr-IsHandled}

module _ {H : Type 0} (hw : CanHardware H) (laws : IsBxcan hw) where
  -- Interrupts one after the other. Before each, the peripheral may do anything but take a frame,
  -- and has emptied a mailbox.
  pub data Interrupted (s : BusState H) : ℕ → BusState H → Type 0 where
    no_interrupt : Interrupted s 0 s
    one_more :
        {n : ℕ} {t : BusState H}
        → Interrupted s n t
        → (h : H) → laws.sent h ≡ laws.sent t.hardware
        → hw.available h ≡ true
        → Interrupted s (suc n) (can_isr hw (record t { hardware = h }))

  -- After `n` of them: the schedule is the same, and `n` frames fewer wait, or none.
  record IsAhead (s : BusState H) (n : ℕ) (t : BusState H) : Type 0 where
    valid : IsValid t.transmit_queue
    same_schedule : schedule hw laws t ≡ schedule hw laws s
    same_dropped : t.transmit_dropped ≡ s.transmit_dropped
    ahead : t.transmit_queue.count ≢ 0 → t.transmit_queue.count + n ≤ s.transmit_queue.count

  Interrupted-IsAhead :
      {s t : BusState H} {n : ℕ} → IsValid s.transmit_queue → Interrupted s n t → IsAhead s n t
  Interrupted-IsAhead v no_interrupt = record {
    valid = v;
    same_schedule = refl;
    same_dropped = refl;
    ahead = λ some_queued. omega arith;
  }
  Interrupted-IsAhead {s} v (one_more {n} {t} before h same free) =
      let a = Interrupted-IsAhead v before in
      let worked : BusState H = record t { hardware = h } in
      let i = can_isr-IsHandled hw laws worked a.valid in
      record {
        valid = i.valid;
        same_schedule =
            i.same_schedule
            ∙ (ap (λ fs. fs ++ wire_frames (backlog hw laws t)) same ∙ a.same_schedule);
        same_dropped = i.same_tx_dropped ∙ a.same_dropped;
        ahead = λ some_queued. elim (ℕ_discrete t.transmit_queue.count 0) [
          | yes none_left ↦ absurd (some_queued (omega (arith, i.fewer)))
          | no waits ↦ omega (arith, i.progress free waits, a.ahead waits)
        ];
      }

  none_queued :
      (s : BusState H) → s.transmit_queue.count ≡ 0 → schedule hw laws s ≡ laws.sent s.hardware
  unfolding by_urgency
  none_queued s e = rw e (append-nil (laws.sent s.hardware))

  -- On a peripheral that works as documented, with a valid transmit queue: after as many
  -- interrupts as frames are queued, each with a mailbox available, and while main sends nothing,
  -- the queue is empty, nothing more is dropped, and the mailboxes have taken, after what they
  -- had taken, every frame of the backlog in its order.
  pub interrupts_deliver :
      {s t : BusState H} {n : ℕ}
      → IsValid s.transmit_queue
      → s.transmit_queue.count ≤ n
      → Interrupted s n t
      → (t.transmit_queue.count ≡ 0)
        × (t.transmit_dropped ≡ s.transmit_dropped)
        × (laws.sent t.hardware ≡ laws.sent s.hardware ++ wire_frames (backlog hw laws s))
  interrupts_deliver {s} {t} {n} v enough r =
      let a = Interrupted-IsAhead v r in
      let done : t.transmit_queue.count ≡ 0 = elim (ℕ_discrete t.transmit_queue.count 0) [
        | yes e ↦ e
        | no waits ↦ absurd (omega (arith, a.ahead waits))
      ] in
      (done, a.same_dropped, sym (none_queued t done) ∙ a.same_schedule)
