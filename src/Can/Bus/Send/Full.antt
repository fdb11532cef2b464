-- ===== src/Can/Bus/Send/Full.antt =====
-- `can_bus_send` with a full queue.
use beamforming_software.Prelude.{
  ℕ, ◌<◌, ◌≡◌, inl, inr, refl, sym, ap, ◌∙◌, subst, arith, true, false, List, [], ◌∷◌, ◌++◌,
  append_assoc, get_or, ltb, Bool-cases, dec_lt,
}
use beamforming_software.Can.Protocol.{Frame}
use beamforming_software.Can.TxQueue
use beamforming_software.Can.TxQueue.{
  TxQueue, Entry, zero_entry, priority_at, priority_count, push, get_highest_priority,
  replace_lower_priority,
}
use beamforming_software.Can.TxQueue.Contents.{IsValid, contents, length-contents, remove_at}
use beamforming_software.Can.TxQueue.Evict.{
  IsLastGreatest, replace_lower_priority-IsValid, replace_lower_priority_lem,
}
use beamforming_software.Can.TxQueue.Order.{
  insert_last, by_urgency, by_urgency-append, by_urgency-IsLastGreatest,
}
use beamforming_software.Can.Bus.{
  CanHardware, BusState, wire_frame, increment_saturating, drain_round, enqueue_and_drain,
  send_with_mailbox, send_when_full,
}
use beamforming_software.Can.Bus.Laws.{IsBxcan}
use beamforming_software.Can.Bus.Drain.{
  wire_frames, backlog, IsTransmission-trans, backlog-IsFront, drain_round-Round,
}
use beamforming_software.Can.Bus.Send.{
  incoming, IsFull, Sent, enqueue-IsAccepted, transmit_taken, transmit-IsAccepted,
}

module _ {H : Type 0} (hw : CanHardware H) (laws : IsBxcan hw) (frame : Frame) (priority : ℕ) where
  -- With a full queue and a free mailbox the more urgent of the frame and of the first of the
  -- backlog goes out, and the frame finds its place.
  with_mailbox-Sent :
      (s : BusState H) (front : Entry) (rest : List Entry)
      → IsValid s.transmit_queue
      → priority < priority_count
      → s.transmit_queue.count ≡ TxQueue.capacity
      → hw.available s.hardware ≡ true
      → backlog hw laws s ≡ front ∷ rest
      → Sent hw laws frame priority s (send_with_mailbox hw frame priority front.priority s)
  unfolding send_with_mailbox
  with_mailbox-Sent s front rest v hp full ha order = elim (dec_lt priority front.priority) [
    | yes urgent ↦
        let lower : ltb priority front.priority ≡ true = ground arith in
        let first : insert_last (incoming hw laws frame priority) (backlog hw laws s)
            ≡ (incoming hw laws frame priority) ∷ backlog hw laws s =
          rw order (ground arith) in
        let gone = transmit_taken hw laws frame priority s ha in
        let out : send_with_mailbox hw frame priority front.priority s
            ≡ (true, record s { hardware = (hw.transmit (wire_frame frame) s.hardware).1 }) =
          ground arith in
        subst (Sent hw laws frame priority s) (sym out)
          (inl (refl, transmit-IsAccepted hw laws frame priority s v ha first (inr (omega arith))))
    | no later ↦
        let not_lower : ltb priority front.priority ≡ false = ground arith in
        elim (drain_round-Round hw laws s v) [
          | inr (_, _, inl none_left) ↦ absurd (omega arith)
          | inr (_, _, inr busy) ↦ cc
          | inl (on, valid, fewer, front', order', sent, transmission) ↦
              let t = (drain_round hw s).1 in
              let (accepted, a, d) =
                enqueue-IsAccepted hw laws frame priority t valid hp (omega arith) in
              let same_front : front' ∷ backlog hw laws t ≡ front ∷ rest = sym order' ∙ order in
              let first : insert_last (incoming hw laws frame priority) (backlog hw laws s)
                  ≡ front' ∷ insert_last (incoming hw laws frame priority) (backlog hw laws t) =
                rw order' (ground arith) in
              let out : send_with_mailbox hw frame priority front.priority s
                  ≡ enqueue_and_drain hw frame priority t =
                ground arith in
              subst (Sent hw laws frame priority s) (sym out) (
                inl (
                  accepted,
                  record {
                    valid = a.valid;
                    scheduled =
                        a.scheduled
                        ∙ (ap
                              (λ fs.
                                fs
                                ++ wire_frames (
                                    insert_last (incoming hw laws frame priority)
                                      (backlog hw laws t)))
                              sent
                            ∙ (append_assoc (laws.sent s.hardware) (wire_frame front'.frame ∷ []) (
                                  wire_frames (
                                    insert_last (incoming hw laws frame priority)
                                      (backlog hw laws t)))
                                ∙ ap (λ es. laws.sent s.hardware ++ wire_frames es) (sym first)));
                    transmission =
                        IsTransmission-trans hw laws s t (enqueue_and_drain hw frame priority t).1
                          transmission a.transmission;
                    not_stranded = inl d;
                  },
                ))
        ]
  ]

  -- With everything full the newest of the least urgent makes way, or the frame is dropped.
  evict-Sent :
      (s : BusState H)
      → IsValid s.transmit_queue
      → priority < priority_count
      → IsFull hw laws frame priority s
      → let (accepted, queue) = replace_lower_priority s.transmit_queue frame priority in
        Sent hw laws frame priority s (
          accepted,
          record s {
            transmit_queue = queue;
            transmit_dropped = increment_saturating s.transmit_dropped;
          },
        )
  evict-Sent s v hp full = elim (replace_lower_priority_lem s.transmit_queue frame priority v) [
    | inl (_, _, accepted, c, last, evicted) ↦
        let xs = contents s.transmit_queue in
        let long = length-contents s.transmit_queue v in
        inr (
          inl (
            full,
            accepted,
            record {
              valid = replace_lower_priority-IsValid s.transmit_queue frame priority v;
              kept = by_urgency (remove_at c xs);
              dropped = get_or xs c zero_entry;
              was =
                  by_urgency-IsLastGreatest xs priority c
                    (subst (λ n. IsLastGreatest (priority_at xs) priority 0 n c) (sym long) last);
              less_urgent = last.above;
              now =
                  ap by_urgency evicted
                  ∙ by_urgency-append (remove_at c xs) (incoming hw laws frame priority);
              rest = refl;
            },
          ))
    | inr (inl bad, _, _) ↦ absurd (omega arith)
    | inr (inr (inl room), _, _) ↦ absurd (room full.0)
    | inr (inr (inr none_lower), refused, same) ↦ inr (
        inr (
          full,
          refused,
          record {
            none_lower = none_lower;
            rest = λ k. record s {
              transmit_queue = same k;
              transmit_dropped = increment_saturating s.transmit_dropped;
            };
          },
        ))
  ]

  pub when_full-Sent :
      (s : BusState H)
      → IsValid s.transmit_queue
      → priority < priority_count
      → s.transmit_queue.count ≡ TxQueue.capacity
      → Sent hw laws frame priority s (send_when_full hw frame priority s)
  unfolding send_when_full
  when_full-Sent s v hp full =
      let g = backlog-IsFront hw laws s v (λ e. absurd (omega arith)) in
      let urgent = g.urgent in
      elim (Bool-cases (hw.available s.hardware)) [
        | inl ha ↦
            let out : send_when_full hw frame priority s
                ≡ send_with_mailbox hw frame priority g.front.priority s =
              ground arith in
            subst (Sent hw laws frame priority s) (sym out)
              (with_mailbox-Sent s g.front _ v hp full ha g.order)
        | inr busy ↦
            let (accepted, queue) = replace_lower_priority s.transmit_queue frame priority in
            let out : send_when_full hw frame priority s ≡ (
              accepted,
              record s {
                transmit_queue = queue;
                transmit_dropped = increment_saturating s.transmit_dropped;
              },
            ) =
              ground arith in
            subst (Sent hw laws frame priority s) (sym out) (evict-Sent s v hp (full, busy))
      ]
