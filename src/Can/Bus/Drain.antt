-- ===== src/Can/Bus/Drain.antt =====
-- The drain hands frames over in the order of urgency, until the queue or the mailboxes run out.
use beamforming_software.Prelude.{
  ℕ, zero, suc, ◌≤◌, ◌<◌, ◌≡◌, ◌≢◌, ◌⊎◌, inl, inr, refl, sym, ap, ◌∙◌, subst, arith, Bool, true,
  false, List, [], ◌∷◌, ◌++◌, map, append_assoc, get_or, Bool-cases, ℕ_discrete, if◌then◌else◌,
}
use beamforming_software.Can.Protocol.{Frame, zero_frame}
use beamforming_software.Can.TxQueue.{
  Entry, zero_entry, priority_at, peek_highest, remove, get_highest_priority,
}
use beamforming_software.Can.TxQueue.Contents.{
  IsValid, contents, length-contents, remove_at, remove_lem, remove-IsValid,
}
use beamforming_software.Can.TxQueue.Select.{
  IsFirstLeast, peek_highest_lem, get_highest_priority_lem,
}
use beamforming_software.Can.TxQueue.Order.{by_urgency, by_urgency-IsFirstLeast}
use beamforming_software.Can.Bus.{
  CanHardware, BusState, wire_frame, drain_round, drain_loop, drain_tx_queue,
}
use beamforming_software.Can.Bus.Laws.{IsBxcan}

-- the frames of a list of entries, as they go on the wire
abbrev pub wire_frames : List Entry → List Frame
wire_frames es = map (λ (e : Entry). wire_frame e.frame) es

module _ {H : Type 0} (hw : CanHardware H) (laws : IsBxcan hw) where
  -- The queued entries in the order in which they are to leave.
  abbrev pub backlog : BusState H → List Entry
  backlog s = by_urgency (contents s.transmit_queue)

  -- All that was handed over, and then all that is to be handed over.
  abbrev pub schedule : BusState H → List Frame
  schedule s = laws.sent s.hardware ++ wire_frames (backlog s)

  -- Only the transmit queue and the peripheral have changed, and the latter only by transmissions.
  pub record IsTransmission (s t : BusState H) : Type 0 where
    pub same_receive_queue : t.receive_queue ≡ s.receive_queue
    pub same_rx_dropped : t.hardware_rx_dropped ≡ s.hardware_rx_dropped
    pub same_tx_dropped : t.transmit_dropped ≡ s.transmit_dropped
    pub same_initialized : t.initialized ≡ s.initialized
    pub same_pending : hw.pending t.hardware ≡ hw.pending s.hardware
    pub fewer_unannounced : laws.unannounced t.hardware ≤ laws.unannounced s.hardware

  -- Nothing more can be handed over.
  abbrev pub IsDrained : BusState H → Type 0
  IsDrained s = (s.transmit_queue.count ≡ 0) ⊎ (hw.available s.hardware ≡ false)

  round_idle :
      (s : BusState H)
      → (s.transmit_queue.count ≡ 0) ⊎ (hw.available s.hardware ≡ false)
      → drain_round hw s ≡ (false, s)
  unfolding drain_round
  round_idle s h = ground arith

  round_handed :
      (s : BusState H) (f : Frame) (i : ℕ)
      → s.transmit_queue.count ≢ 0
      → hw.available s.hardware ≡ true
      → peek_highest s.transmit_queue zero_frame 0 ≡ (true, f, i)
      → (hw.transmit (wire_frame f) s.hardware).0 ≡ true
      → drain_round hw s ≡ (
        true,
        record s {
          hardware = (hw.transmit (wire_frame f) s.hardware).1;
          transmit_queue = remove s.transmit_queue i;
        },
      )
  unfolding drain_round
  round_handed s f i hc ha hp ht = ground arith

  -- The first of the backlog, which the queue's two selecting operations find.
  pub record IsFront (s : BusState H) : Type 0 where
    pub index : ℕ
    pub inside : index < s.transmit_queue.count
    pub front : Entry
    pub peeked : peek_highest s.transmit_queue zero_frame 0 ≡ (true, front.frame, index)
    pub urgent : get_highest_priority s.transmit_queue 0 ≡ (true, front.priority)
    pub order : backlog s ≡ front ∷ by_urgency (remove_at index (contents s.transmit_queue))

  pub backlog-IsFront :
      (s : BusState H) → IsValid s.transmit_queue → s.transmit_queue.count ≢ 0 → IsFront s
  backlog-IsFront s v hc = elim (peek_highest_lem s.transmit_queue zero_frame 0 v) [
    | inl (e, _) ↦ absurd (hc e)
    | inr (_, i, first, peeked) ↦
        let xs = contents s.transmit_queue in
        let long = length-contents s.transmit_queue v in
        let reported = get_highest_priority_lem s.transmit_queue zero_frame 0 0 v in
        record {
          index = i;
          inside = first.inside;
          front = get_or xs i zero_entry;
          peeked = peeked;
          urgent =
              reported
              ∙ (λ k. ((peeked k).0, if (peeked k).0 then priority_at xs (peeked k).2 else 0));
          order =
              by_urgency-IsFirstLeast xs i
                (subst (λ n. IsFirstLeast (priority_at xs) n i) (sym long) first);
        }
  ]

  abbrev pub Round : BusState H → Bool × BusState H → Type 0
  Round s r =
      ((r.0 ≡ true)
        × IsValid r.1.transmit_queue
        × (suc r.1.transmit_queue.count ≡ s.transmit_queue.count)
        × (front : Entry) × (backlog s ≡ front ∷ backlog r.1)
        × (laws.sent r.1.hardware ≡ laws.sent s.hardware ++ wire_frame front.frame ∷ [])
        × IsTransmission s r.1)
      ⊎ ((r.0 ≡ false) × (r.1 ≡ s) × IsDrained s)

  handed-Round :
      (s : BusState H)
      → IsValid s.transmit_queue
      → s.transmit_queue.count ≢ 0
      → hw.available s.hardware ≡ true
      → Round s (drain_round hw s)
  handed-Round s v hc ha =
      let g = backlog-IsFront s v hc in
      let f = g.front.frame in
      let (taken, sent) = laws.transmit_free (wire_frame f) s.hardware ha in
      elim (remove_lem s.transmit_queue g.index v) [
        | inr (out, _) ↦ absurd (omega (arith, g.inside))
        | inl (inside, kept, fewer) ↦
            subst (Round s) (sym (round_handed s f g.index hc ha g.peeked taken)) (
              inl (
                refl,
                remove-IsValid s.transmit_queue g.index v,
                fewer,
                g.front,
                g.order ∙ ap (λ es. g.front ∷ by_urgency es) (sym kept),
                sent,
                record {
                  same_receive_queue = refl;
                  same_rx_dropped = refl;
                  same_tx_dropped = refl;
                  same_initialized = refl;
                  same_pending = laws.transmit_pending (wire_frame f) s.hardware;
                  fewer_unannounced = laws.transmit_unannounced (wire_frame f) s.hardware;
                },
              ))
      ]

  -- Handing the first of the backlog over leaves the schedule as it was.
  schedule-step :
      (s t : BusState H) (front : Entry)
      → backlog s ≡ front ∷ backlog t
      → laws.sent t.hardware ≡ laws.sent s.hardware ++ wire_frame front.frame ∷ []
      → schedule t ≡ schedule s
  schedule-step s t front order sent =
      ap (λ fs. fs ++ wire_frames (backlog t)) sent
      ∙ (append_assoc (laws.sent s.hardware) (wire_frame front.frame ∷ []) (wire_frames (backlog t))
          ∙ ap (λ es. laws.sent s.hardware ++ wire_frames es) (sym order))

  idle-Round : (s : BusState H) → IsDrained s → Round s (drain_round hw s)
  idle-Round s d = subst (Round s) (sym (round_idle s d)) (inr (refl, refl, d))

  -- A round hands the first of the backlog over, or there is nothing to hand over.
  pub drain_round-Round : (s : BusState H) → IsValid s.transmit_queue → Round s (drain_round hw s)
  drain_round-Round s v = elim (ℕ_discrete s.transmit_queue.count 0) [
    | yes e ↦ idle-Round s (inl e)
    | no hc ↦ elim (Bool-cases (hw.available s.hardware)) [
      | inl ha ↦ handed-Round s v hc ha
      | inr busy ↦ idle-Round s (inr busy)
    ]
  ]

  -- A drain: nothing is lost, and nothing more can be handed over.
  pub record IsDrain (s t : BusState H) : Type 0 where
    pub valid : IsValid t.transmit_queue
    pub same_schedule : schedule t ≡ schedule s
    pub transmission : IsTransmission s t
    pub drained : IsDrained t
    pub fewer : t.transmit_queue.count ≤ s.transmit_queue.count
    pub progress :
        hw.available s.hardware ≡ true
        → s.transmit_queue.count ≢ 0
        → t.transmit_queue.count < s.transmit_queue.count

  pub IsTransmission-refl : (s : BusState H) → IsTransmission s s
  IsTransmission-refl s = record {
    same_receive_queue = refl;
    same_rx_dropped = refl;
    same_tx_dropped = refl;
    same_initialized = refl;
    same_pending = refl;
    fewer_unannounced = omega arith;
  }

  pub IsTransmission-trans :
      (s t u : BusState H) → IsTransmission s t → IsTransmission t u → IsTransmission s u
  IsTransmission-trans s t u a b = record {
    same_receive_queue = b.same_receive_queue ∙ a.same_receive_queue;
    same_rx_dropped = b.same_rx_dropped ∙ a.same_rx_dropped;
    same_tx_dropped = b.same_tx_dropped ∙ a.same_tx_dropped;
    same_initialized = b.same_initialized ∙ a.same_initialized;
    same_pending = b.same_pending ∙ a.same_pending;
    fewer_unannounced = omega (arith, a.fewer_unannounced, b.fewer_unannounced);
  }

  loop_on :
      (n : ℕ) (s : BusState H)
      → (drain_round hw s).0 ≡ true
      → drain_loop hw (suc n) s ≡ drain_loop hw n (drain_round hw s).1
  unfolding drain_loop
  loop_on n s e = ground arith

  loop_off :
      (n : ℕ) (s : BusState H)
      → (drain_round hw s).0 ≡ false
      → drain_loop hw (suc n) s ≡ (drain_round hw s).1
  unfolding drain_loop
  loop_off n s e = ground arith

  drain_loop-IsDrain :
      (n : ℕ) (s : BusState H)
      → IsValid s.transmit_queue
      → s.transmit_queue.count ≤ n
      → IsDrain s (drain_loop hw n s)
  unfolding drain_loop
  drain_loop-IsDrain zero s v h = record {
    valid = v;
    same_schedule = refl;
    transmission = IsTransmission-refl s;
    drained = inl (omega arith);
    fewer = omega arith;
    progress = λ free some_queued. absurd (some_queued (omega arith));
  }
  drain_loop-IsDrain (suc n) s v h = elim (drain_round-Round s v) [
    | inl (on, valid, fewer, front, order, sent, transmission) ↦
        let t = (drain_round hw s).1 in
        let same = schedule-step s t front order sent in
        let rest = drain_loop-IsDrain n t valid (omega arith) in
        rw (loop_on n s on) (record {
          valid = rest.valid;
          same_schedule = rest.same_schedule ∙ same;
          transmission =
              IsTransmission-trans s t (drain_loop hw n t) transmission rest.transmission;
          drained = rest.drained;
          fewer = omega (arith, rest.fewer);
          progress = λ free some_queued. omega (arith, rest.fewer);
        })
    | inr (off, same, d) ↦ subst (IsDrain s) (sym (loop_off n s off ∙ same)) (record {
      valid = v;
      same_schedule = refl;
      transmission = IsTransmission-refl s;
      drained = d;
      fewer = omega arith;
      progress =
          λ free some_queued. elim d [ inl empty ↦ absurd (some_queued empty) | inr busy ↦ cc ];
    })
  ]

  -- A drain of a valid queue ends with the queue empty or the mailboxes full. The frames that were
  -- handed over are the first of the backlog, in its order, and the others stay queued.
  pub drain_tx_queue-IsDrain :
      (s : BusState H) → IsValid s.transmit_queue → IsDrain s (drain_tx_queue hw s)
  unfolding drain_tx_queue
  drain_tx_queue-IsDrain s v = drain_loop-IsDrain s.transmit_queue.count s v (omega arith)
