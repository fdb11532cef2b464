-- ===== src/Can/Bus/Send.antt =====
-- What `can_bus_send` may do with a frame: take it into the schedule, let it replace a less
-- urgent one, or drop it.
pub mod Full
pub mod Every
use beamforming_software.Prelude.{
  ℕ, ◌≤◌, ◌<◌, ◌≡◌, ◌≢◌, ◌⊎◌, inl, inr, refl, sym, ap, ◌∙◌, subst, arith, Bool, true, false, List,
  [], ◌∷◌, ◌++◌, append_assoc, get_or, ltb, Bool-cases, ℕ_discrete, dec_lt,
}
use beamforming_software.Can.Protocol.{Frame}
use beamforming_software.Can.TxQueue
use beamforming_software.Can.TxQueue.{
  TxQueue, Entry, zero_entry, priority_at, priority_count, push, get_highest_priority,
  replace_lower_priority,
}
use beamforming_software.Can.TxQueue.Contents.{
  IsValid, contents, length-contents, remove_at, push-IsValid, push_lem,
}
use beamforming_software.Can.TxQueue.Evict.{
  IsLastGreatest, replace_lower_priority-IsValid, replace_lower_priority_lem,
}
use beamforming_software.Can.TxQueue.Order.{
  insert_last, by_urgency, by_urgency-append, by_urgency-IsLastGreatest,
}
use beamforming_software.Can.Bus.{
  CanHardware, BusState, wire_frame, increment_saturating, drain_round, drain_tx_queue,
  try_transmit_frame, enqueue_and_drain, send_with_mailbox, send_when_full, send_queued, sendable,
  send,
}
use beamforming_software.Can.Bus.Laws.{IsBxcan}
use beamforming_software.Can.Bus.Drain.{
  wire_frames, backlog, schedule, IsTransmission, IsTransmission-trans, IsDrained, backlog-IsFront,
  drain_round-Round, drain_tx_queue-IsDrain,
}

module _ {H : Type 0} (hw : CanHardware H) (laws : IsBxcan hw) (frame : Frame) (priority : ℕ) where
  abbrev pub incoming : Entry
  incoming = record { frame = frame; priority = priority }

  -- The frame is in the schedule, behind those of its priority and before those of less urgency;
  -- all else is where it was, and nothing is counted as dropped.
  pub record IsAccepted (s t : BusState H) : Type 0 where
    pub valid : IsValid t.transmit_queue
    pub scheduled :
        schedule hw laws t
        ≡ laws.sent s.hardware ++ wire_frames (insert_last incoming (backlog hw laws s))
    pub transmission : IsTransmission hw laws s t
    pub not_stranded : IsDrained hw laws t ⊎ (s.transmit_queue.count ≢ 0)

  -- The mailboxes and the queue are full. The frame takes the place of the last of the backlog,
  -- which is less urgent and is dropped and counted.
  pub record IsReplaced (s t : BusState H) : Type 0 where
    pub valid : IsValid t.transmit_queue
    pub kept : List Entry
    pub dropped : Entry
    pub was : backlog hw laws s ≡ kept ++ dropped ∷ []
    pub less_urgent : priority < dropped.priority
    pub now : backlog hw laws t ≡ insert_last incoming kept
    pub rest : t ≡ record s {
      transmit_queue = t.transmit_queue;
      transmit_dropped = increment_saturating s.transmit_dropped;
    }

  -- The mailboxes and the queue are full, and no queued frame is less urgent: the frame is dropped
  -- and counted, and nothing else changes.
  pub record IsRefused (s t : BusState H) : Type 0 where
    pub none_lower :
        (j : ℕ) → j < s.transmit_queue.count → priority_at (contents s.transmit_queue) j ≤ priority
    pub rest : t ≡ record s { transmit_dropped = increment_saturating s.transmit_dropped }

  abbrev pub IsFull : BusState H → Type 0
  IsFull s = (s.transmit_queue.count ≡ TxQueue.capacity) × (hw.available s.hardware ≡ false)

  abbrev pub Sent : BusState H → Bool × BusState H → Type 0
  Sent s r =
      ((r.0 ≡ true) × IsAccepted s r.1)
      ⊎ ((IsFull s × (r.0 ≡ true) × IsReplaced s r.1)
          ⊎ (IsFull s × (r.0 ≡ false) × IsRefused s r.1))

  pub enqueue_accepted :
      (s : BusState H)
      → (push s.transmit_queue frame priority).0 ≡ true
      → enqueue_and_drain hw frame priority s ≡ (
        true,
        drain_tx_queue hw (record s { transmit_queue = (push s.transmit_queue frame priority).1 }),
      )
  unfolding enqueue_and_drain
  enqueue_accepted s e = ground arith

  -- With room in the queue the frame is queued, and the drain follows.
  pub enqueue-IsAccepted :
      (s : BusState H)
      → IsValid s.transmit_queue
      → priority < priority_count
      → s.transmit_queue.count < TxQueue.capacity
      → let r = enqueue_and_drain hw frame priority s in
        (r.0 ≡ true) × IsAccepted s r.1 × IsDrained hw laws r.1
  enqueue-IsAccepted s v hp room = elim (push_lem s.transmit_queue frame priority v) [
    | inr (inl bad, _, _) ↦ absurd (omega arith)
    | inr (inr full, _, _) ↦ absurd (omega arith)
    | inl (_, _, pushed, grown) ↦
        let queued : BusState H = record s {
          transmit_queue = (push s.transmit_queue frame priority).1;
        } in
        let d =
          drain_tx_queue-IsDrain hw laws queued (push-IsValid s.transmit_queue frame priority v) in
        let order = ap by_urgency grown ∙ by_urgency-append (contents s.transmit_queue) incoming in
        rw (enqueue_accepted s pushed) (
          refl,
          record {
            valid = d.valid;
            scheduled = d.same_schedule ∙ ap (λ es. laws.sent s.hardware ++ wire_frames es) order;
            transmission = record {
              same_receive_queue = d.transmission.same_receive_queue;
              same_rx_dropped = d.transmission.same_rx_dropped;
              same_tx_dropped = d.transmission.same_tx_dropped;
              same_initialized = d.transmission.same_initialized;
              same_pending = d.transmission.same_pending;
              fewer_unannounced = d.transmission.fewer_unannounced;
            };
            not_stranded = inl d.drained;
          },
          d.drained,
        )
  ]

  pub transmit_taken :
      (s : BusState H)
      → hw.available s.hardware ≡ true
      → try_transmit_frame hw frame s
        ≡ (true, record s { hardware = (hw.transmit (wire_frame frame) s.hardware).1 })
  transmit_taken s ha =
      let (taken, sent) = laws.transmit_free (wire_frame frame) s.hardware ha in ground arith

  -- A frame that goes to a mailbox at once, more urgent than all that is queued.
  pub transmit-IsAccepted :
      (s : BusState H)
      → IsValid s.transmit_queue
      → hw.available s.hardware ≡ true
      → insert_last incoming (backlog hw laws s) ≡ incoming ∷ backlog hw laws s
      → (s.transmit_queue.count ≡ 0) ⊎ (s.transmit_queue.count ≢ 0)
      → IsAccepted s (record s { hardware = (hw.transmit (wire_frame frame) s.hardware).1 })
  transmit-IsAccepted s v ha front some_or_none =
      let (taken, sent) = laws.transmit_free (wire_frame frame) s.hardware ha in
      record {
        valid = v;
        scheduled =
            ap (λ fs. fs ++ wire_frames (backlog hw laws s)) sent
            ∙ (append_assoc (laws.sent s.hardware) (wire_frame frame ∷ [])
                  (wire_frames (backlog hw laws s))
                ∙ ap (λ es. laws.sent s.hardware ++ wire_frames es) (sym front));
        transmission = record {
          same_receive_queue = refl;
          same_rx_dropped = refl;
          same_tx_dropped = refl;
          same_initialized = refl;
          same_pending = laws.transmit_pending (wire_frame frame) s.hardware;
          fewer_unannounced = laws.transmit_unannounced (wire_frame frame) s.hardware;
        };
        not_stranded = elim some_or_none [ inl e ↦ inl (inl e) | inr ne ↦ inr ne ];
      }
