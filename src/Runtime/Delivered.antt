-- ===== src/Runtime/Delivered.antt =====
-- The answers on the bus driver: each is put into the schedule of the frames that are to be sent,
-- and the interrupts hand it to a mailbox.
use beamforming_software.Prelude.{
  ℕ, ◌≤◌, ◌≡◌, ◌≢◌, ◌⊎◌, inl, inr, refl, sym, ap, ◌∙◌, subst, arith, Bool-cases, true, List, [],
  ◌∷◌, ◌++◌, map-append, leb,
}
use beamforming_software.Can.Protocol.{
  MessageType, node_broadcast, DecodeResult, Frame, IsFrame, Command, zero_command,
}
use beamforming_software.Can.Protocol.Decode.{decode_command}
use beamforming_software.Can.Protocol.Encode.Laws.{IsResponse}
use beamforming_software.Can.TxQueue.{
  Entry, priority_valid, priority_ack, priority_error, priority_requested_status,
}
use beamforming_software.Can.TxQueue.Order.{insert_last}
use beamforming_software.Can.Bus as CanBus
use beamforming_software.Can.Bus.{CanHardware, BusState, wire_frame, sendable}
use beamforming_software.Can.Bus.Laws.{IsBxcan}
use beamforming_software.Can.Bus.Drain.{wire_frames, backlog}
use beamforming_software.Can.Bus.Send.{IsFull, IsAccepted, incoming}
use beamforming_software.Can.Bus.Send.Every.{send-Sent}
use beamforming_software.Can.Bus.Steps.{IsSound}
use beamforming_software.Can.Bus.Delivery.{Interrupted, interrupts_deliver}
use beamforming_software.Platform.SpiGuard.{Peripherals}
use beamforming_software.Rf.Execute.Latches.{Chips}
use beamforming_software.Runtime.{Bus, System, serve_frame}
use beamforming_software.Runtime.OnBus.{bus_ops}
use beamforming_software.Runtime.Contract.{
  Promise, reported, repeated, reused, locked_out, done, failed,
}
use beamforming_software.Runtime.Contract.Kept.{serve_frame-Promise}
use beamforming_software.Runtime.Contract.Cached.{IsCache, hit-IsResponse, IsServing}

-- A response to the command `c`: from the node to the controller, under the command's sequence.
pub record IsReply (node : ℕ) (c : Command) (r : Frame) : Type 0 where
  pub type : MessageType
  pub dlc : ℕ
  pub bytes : List ℕ
  pub says : IsResponse type node c.sequence dlc bytes r
  pub short : dlc ≤ 8

reply :
    {t : MessageType} {node dlc : ℕ} {bytes : List ℕ} {c : Command} {r : Frame}
    → IsResponse t node c.sequence dlc bytes r
    → dlc ≤ 8
    → IsReply node c r
reply {t} {node} {dlc} {bytes} says short = record {
  type = t;
  dlc = dlc;
  bytes = bytes;
  says = says;
  short = short;
}

insert_last-split :
    (e : Entry) (es : List Entry)
    → (before after : List Entry) × (insert_last e es ≡ before ++ e ∷ after)
insert_last-split e [] = ([], [], refl)
insert_last-split e (y ∷ ys) = elim (Bool-cases (leb y.priority e.priority)) [
  | inl behind ↦
      let (before, after, split) = insert_last-split e ys in
      rw behind (y ∷ before, after, ap (λ zs. y ∷ zs) split)
  | inr front ↦ rw front ([], y ∷ ys, refl)
]

module _ {B : Type 0} (ops : Bus B) (p : Peripherals) where
  -- Every case of the contract gives one reply to the bus.
  Promise-IsReply :
      (c : Command) (f : Frame) (s t : System B)
      → IsCache s.runtime.node_id s.cache
      → Promise ops p c f s t
      → (r : Frame) × (priority : ℕ) × IsReply s.runtime.node_id c r
        × (priority_valid priority ≡ true)
        × (t.bus ≡ (ops.send r priority s.bus).1)
  Promise-IsReply c f s _ i (reported r first k says) =
      (r, priority_requested_status, reply says (omega arith), refl, refl)
  Promise-IsReply c f s _ i (repeated r e) = (
    r,
    priority_ack,
    reply (hit-IsResponse s.runtime.node_id s.cache c f r i e) (omega arith),
    refl,
    refl,
  )
  Promise-IsReply c f s _ i (reused r e says) =
      (r, priority_error, reply says (omega arith), refl, refl)
  Promise-IsReply c f s _ i (locked_out r first active on k says) =
      (r, priority_error, reply says (omega arith), refl, refl)
  Promise-IsReply c f s t i (done r _ e) =
      (r, priority_ack, reply e.says (omega arith), refl, e.sent)
  Promise-IsReply c f s t i (failed r _ e) =
      (r, priority_error, reply e.says (omega arith), refl, e.sent)

module _ {H : Type 0} (hw : CanHardware H) (laws : IsBxcan hw) (p : Peripherals)
    (chips : Chips) where
  -- Such a reply may be sent on a bus that is set up.
  reply-sendable :
      (node : ℕ) (c : Command) (r : Frame) (priority : ℕ) (b : BusState H)
      → IsReply node c r
      → priority_valid priority ≡ true
      → b.initialized ≡ true
      → sendable hw r priority b ≡ true
  reply-sendable node c r priority b i valid ready =
      let h = i.says in
      let short = i.short in
      let extended = h.extended in
      let remote = h.remote in let id = h.in_range in let dlc = h.dlc_exact in ground arith

  -- A frame that was accepted has its place in what the mailboxes are to take.
  accepted-split :
      (r : Frame) (priority : ℕ) (s t : BusState H)
      → IsAccepted hw laws r priority s t
      → (before after : List Frame) × (laws.sent t.hardware ++ wire_frames (backlog hw laws t)
          ≡ laws.sent s.hardware ++ (before ++ wire_frame r ∷ after))
  accepted-split r priority s t a =
      let (before, after, split) =
        insert_last-split (incoming hw laws r priority) (backlog hw laws s) in
      (
        wire_frames before,
        wire_frames after,
        a.scheduled
            ∙ ap (λ fs. laws.sent s.hardware ++ fs)
                (ap wire_frames split
                  ∙ map-append (λ (e : Entry). wire_frame e.frame) before
                      (incoming hw laws r priority ∷ after)),
      )

  -- What becomes of the reply `r` on the bus: it was accepted, and after as many interrupts as
  -- frames wait, each with a mailbox available, a mailbox has taken it.
  abbrev pub IsTaken : Frame → BusState H → BusState H → Type 0
  IsTaken r b b1 =
      (n : ℕ) (b2 : BusState H)
      → Interrupted hw laws b1 n b2
      → b1.transmit_queue.count ≤ n
      → (before after : List Frame) × (laws.sent b2.hardware
          ≡ laws.sent b.hardware ++ (before ++ wire_frame r ∷ after))

  accepted-IsTaken :
      (r : Frame) (priority : ℕ) (b b1 : BusState H)
      → IsAccepted hw laws r priority b b1
      → IsTaken r b b1
  accepted-IsTaken r priority b b1 a n b2 rounds enough =
      let (before, after, place) = accepted-split r priority b b1 a in
      let (_, _, sent) = interrupts_deliver hw laws a.valid enough rounds in
      (before, after, sent ∙ place)

  -- On a peripheral that works as documented, and from a node that serves on a sound bus: a frame
  -- of eight bytes that decodes to a unicast command is answered by one response of this node to
  -- the controller, under the command's sequence. Unless the mailboxes and the queue of eight are
  -- full, the response is in a mailbox after at least as many further interrupts as frames are
  -- then queued, if each finds a mailbox available and main sends nothing meanwhile.
  pub serve_frame-IsTaken :
      (f : Frame) (s : System (BusState H)) (c : Command)
      → IsServing (bus_ops hw) p chips s
      → IsSound hw laws s.bus
      → IsFrame f
      → decode_command f s.runtime.node_id zero_command ≡ (DecodeResult.ok, c)
      → c.destination ≢ node_broadcast
      → let t = serve_frame (bus_ops hw) p f s in
        (r : Frame) × (priority : ℕ) × IsReply s.runtime.node_id c r
        × (t.bus ≡ (CanBus.send hw r priority s.bus).1)
        × (IsFull hw laws r priority s.bus ⊎ IsTaken r s.bus t.bus)
  serve_frame-IsTaken f s c i sound h e unicast =
      let t = serve_frame (bus_ops hw) p f s in
      let (r, priority, is_reply, valid, out) =
        Promise-IsReply (bus_ops hw) p c f s t i.cache
          (serve_frame-Promise (bus_ops hw) p f s c h i.node i.safe.bounded e unicast) in
      let good = reply-sendable s.runtime.node_id c r priority s.bus is_reply valid sound.ready in
      (
        r,
        priority,
        is_reply,
        out,
        elim (send-Sent hw laws r priority s.bus sound.queue) [
          | inr (refused, _) ↦ cc
          | inl (_, inr (inl (full, _, _))) ↦ inl full
          | inl (_, inr (inr (full, _, _))) ↦ inl full
          | inl (_, inl (_, a)) ↦
              inr (subst (IsTaken r s.bus) (sym out) (accepted-IsTaken r priority s.bus _ a))
        ],
      )
