-- ===== src/Main/Pass.antt =====
-- A pass of the service loop on the bus driver: it serves every waiting frame, in their order,
-- and ends.
use beamforming_software.Prelude.{
  ℕ, suc, ◌+◌, ◌≡◌, inl, inr, refl, sym, ap, ◌∙◌, subst, arith, Bool, true, false, ◌==◌, List, [],
  ◌∷◌, length,
}
use beamforming_software.Can.Protocol.{Frame, zero_frame}
use beamforming_software.Can.RxQueue.{RxQueue, pop}
use beamforming_software.Can.RxQueue.Refine as Rx
use beamforming_software.Can.TxQueue.Contents.{IsValid}
use beamforming_software.Can.Bus as CanBus
use beamforming_software.Can.Bus.{CanHardware, BusState}
use beamforming_software.Can.Bus.Laws.{IsBxcan}
use beamforming_software.Can.Bus.Send.Every.{send-Sent}
use beamforming_software.Can.Bus.Steps.{IsSound, sends, receives, Step-IsSound}
use beamforming_software.Platform.SpiGuard.{Peripherals}
use beamforming_software.Runtime.{System, service_next, serve_frame}
use beamforming_software.Runtime.OnBus.{bus_ops}
use beamforming_software.Runtime.SendsOnce.{serve_frame-SendsOnce}
use beamforming_software.Main.{service_rounds, service_pass}

-- what a pop finds
abbrev Found : Bool → Frame → List Frame → List Frame → Type 0
Found found f [] rest = (found ≡ false) × (rest ≡ [])
Found found f (x ∷ xs) rest = (found ≡ true) × (f ≡ x) × (rest ≡ xs)

pop-contents :
    (q : RxQueue) (old : Frame) (xs : List Frame)
    → Rx.IsValid q
    → Rx.contents q ≡ xs
    → Found (pop q old).0 (pop q old).1 xs (Rx.contents (pop q old).2)
unfolding Rx.fifo_pop
pop-contents q old xs v e = found_of xs (Rx.pop_refines q old v ∙ ap (λ xs. Rx.fifo_pop xs old) e)
  where
    found_of :
        (xs : List Frame)
        → ((pop q old).0, (pop q old).1, Rx.contents (pop q old).2) ≡ Rx.fifo_pop xs old
        → Found (pop q old).0 (pop q old).1 xs (Rx.contents (pop q old).2)
    found_of [] e = (
      ap (λ (r : Bool × Frame × List Frame). r.0) e,
      ap (λ (r : Bool × Frame × List Frame). r.2) e,
    )
    found_of (x ∷ xs) e = (
      ap (λ (r : Bool × Frame × List Frame). r.0) e,
      ap (λ (r : Bool × Frame × List Frame). r.1) e,
      ap (λ (r : Bool × Frame × List Frame). r.2) e,
    )

-- and that a pop of an empty ring leaves it
pop-none : (q : RxQueue) (old : Frame) → (pop q old).0 ≡ false → (pop q old).2 ≡ q
unfolding pop
pop-none q old h = ground arith

module _ {H : Type 0} (hw : CanHardware H) (laws : IsBxcan hw) (p : Peripherals) where
  -- the frames that wait for the main loop
  abbrev pub waiting : BusState H → List Frame
  waiting b = Rx.contents b.receive_queue

  send-receive_queue :
      (f : Frame) (priority : ℕ) (b : BusState H)
      → IsValid b.transmit_queue
      → (CanBus.send hw f priority b).1.receive_queue ≡ b.receive_queue
  send-receive_queue f priority b v = elim (send-Sent hw laws f priority b v) [
    | inr (_, same) ↦ ap (λ (r : Bool × BusState H). r.1.receive_queue) same
    | inl (_, inl (_, a)) ↦ a.transmission.same_receive_queue
    | inl (_, inr (inl (_, _, r))) ↦ ap (λ (t : BusState H). t.receive_queue) r.rest
    | inl (_, inr (inr (_, _, r))) ↦ ap (λ (t : BusState H). t.receive_queue) r.rest
  ]

  -- Serving a frame keeps the bus sound, and the waiting frames.
  pub serve_frame-IsSound :
      (f : Frame) (s : System (BusState H))
      → IsSound hw laws s.bus
      → let t = serve_frame (bus_ops hw) p f s in
        IsSound hw laws t.bus × (waiting t.bus ≡ waiting s.bus)
  serve_frame-IsSound f s i = elim (serve_frame-SendsOnce (bus_ops hw) p f s) [
    | inl same ↦ (subst (IsSound hw laws) (sym same) i, ap waiting same)
    | inr (r, priority, sent) ↦ (
      subst (IsSound hw laws) (sym sent) (Step-IsSound hw laws (sends r priority) i),
      ap waiting sent
          ∙ ap (λ (q : RxQueue). Rx.contents q) (send-receive_queue r priority s.bus i.queue),
    )
  ]

  abbrev received : BusState H → Bool × Frame × BusState H
  received b = CanBus.receive hw zero_frame b

  receive-waiting :
      (b : BusState H) (xs : List Frame)
      → IsSound hw laws b
      → waiting b ≡ xs
      → Found (received b).0 (received b).1 xs (waiting (received b).2)
  unfolding CanBus.receive
  receive-waiting b xs i e =
      let out : received b ≡ (
        (pop b.receive_queue zero_frame).0,
        (pop b.receive_queue zero_frame).1,
        record b { receive_queue = (pop b.receive_queue zero_frame).2 },
      ) =
        rw i.ready refl in
      subst (λ (r : Bool × Frame × BusState H). Found r.0 r.1 xs (waiting r.2)) (sym out)
        (pop-contents b.receive_queue zero_frame xs i.ring e)

  -- The system once the oldest waiting frame is taken from the ring, which changes nothing else.
  abbrev pub taken : System (BusState H) → System (BusState H)
  taken s = record s {
    bus = record (s.bus) { receive_queue = (pop s.bus.receive_queue zero_frame).2 };
  }

  -- The frames, one after the other, each taken from the ring and then served.
  abbrev pub serve_all : List Frame → System (BusState H) → System (BusState H)
  serve_all [] s = s
  serve_all (f ∷ fs) s = serve_all fs (serve_frame (bus_ops hw) p f (taken s))

  taken-received :
      (s : System (BusState H))
      → IsSound hw laws s.bus
      → record s { bus = (received s.bus).2 } ≡ taken s
  unfolding CanBus.receive
  taken-received s i = rw i.ready refl

  next_found :
      (s : System (BusState H))
      → (received s.bus).0 ≡ true
      → service_next (bus_ops hw) p s ≡ (
        true,
        serve_frame (bus_ops hw) p (received s.bus).1 (record s { bus = (received s.bus).2 }),
      )
  unfolding service_next
  next_found s e = ground arith

  next_none :
      (s : System (BusState H))
      → (received s.bus).0 ≡ false
      → service_next (bus_ops hw) p s ≡ (false, record s { bus = (received s.bus).2 })
  unfolding service_next
  next_none s e = ground arith

  taken-empty : (s : System (BusState H)) → IsSound hw laws s.bus → waiting s.bus ≡ [] → taken s ≡ s
  taken-empty s i e =
      let (none_found, _) = pop-contents s.bus.receive_queue zero_frame [] i.ring e in
      ap (λ (q : RxQueue). record s { bus = record (s.bus) { receive_queue = q } })
        (pop-none s.bus.receive_queue zero_frame none_found)

  service_rounds-waiting :
      (xs : List Frame) (s : System (BusState H))
      → IsSound hw laws s.bus
      → waiting s.bus ≡ xs
      → let (ended, services, t) = service_rounds (bus_ops hw) p (suc (length xs)) s in
        (ended ≡ true) × (services ≡ length xs) × (t ≡ serve_all xs s) × (waiting t.bus ≡ [])
  unfolding service_rounds
  service_rounds-waiting [] s i e =
      let (none_found, rest) = receive-waiting s.bus [] i e in
      rw (next_none s none_found) (refl, refl, taken-received s i ∙ taken-empty s i e, rest)
  service_rounds-waiting (x ∷ xs) s i e =
      let (found, frame, rest) = receive-waiting s.bus (x ∷ xs) i e in
      let next : System (BusState H) = record s { bus = (received s.bus).2 } in
      let sound = Step-IsSound hw laws (receives zero_frame) i in
      let (after, kept) = serve_frame-IsSound (received s.bus).1 next sound in
      let (ended, services, all, empty) =
        service_rounds-waiting xs (serve_frame (bus_ops hw) p (received s.bus).1 next) after
          (kept ∙ rest) in
      let same : serve_frame (bus_ops hw) p (received s.bus).1 next
          ≡ serve_frame (bus_ops hw) p x (taken s) =
        ap (λ f. serve_frame (bus_ops hw) p f next) frame
        ∙ ap (serve_frame (bus_ops hw) p x) (taken-received s i) in
      rw (next_found s found)
        (ended, ap (λ k. k + 1) services ∙ omega arith, all ∙ ap (serve_all xs) same, empty)

  -- On a sound bus that no interrupt changes meanwhile, a pass of the service loop ends once the
  -- receive ring is empty: the system is the one after every waiting frame was taken and served, in
  -- the order of the ring. The pass services the watchdog
  -- once for each frame and once more, and waits for an interrupt exactly if no frame was waiting.
  pub service_pass-waiting :
      (s : System (BusState H))
      → IsSound hw laws s.bus
      → let n = length (waiting s.bus) in
        let (ended, services, waits, t) = service_pass (bus_ops hw) p (suc n) s in
        (ended ≡ true)
        × (services ≡ n + 1)
        × (waits ≡ (n == 0))
        × (t ≡ serve_all (waiting s.bus) s)
        × (waiting t.bus ≡ [])
  unfolding service_pass
  service_pass-waiting s i =
      let (ended, services, all, empty) = service_rounds-waiting (waiting s.bus) s i refl in
      (ended, ap (λ k. k + 1) services, ap (λ (k : ℕ). k == 0) services, all, empty)
