-- ===== src/Main/Answers.antt =====
-- From power-on to the answer in a mailbox: the whole firmware on the CAN peripheral.
use beamforming_software.Prelude.{ℕ, ◌≡◌, ◌≢◌, ◌⊎◌, refl, sym, subst, []}
use beamforming_software.Can.Protocol.{
  node_broadcast, DecodeResult, Frame, IsFrame, Command, zero_command,
}
use beamforming_software.Can.Protocol.Decode.{decode_command}
use beamforming_software.Can.Bus as CanBus
use beamforming_software.Can.Bus.{CanHardware, BusState}
use beamforming_software.Can.Bus.Laws.{IsBxcan}
use beamforming_software.Can.Bus.Send.{IsFull}
use beamforming_software.Can.Bus.Steps as BusSteps
use beamforming_software.Can.Bus.Steps.{IsSound, Step-IsSound, Reach-IsSound}
use beamforming_software.Platform.SpiGuard.{Peripherals}
use beamforming_software.Platform.Clock.{ClockTree}
use beamforming_software.Rf.Execute.Latches.{Chips, IsQuietTrace}
use beamforming_software.Runtime.{System, serve_frame}
use beamforming_software.Runtime.OnBus.{bus_ops}
use beamforming_software.Runtime.Served.{Reach, here, later, serves, interrupts}
use beamforming_software.Runtime.Contract.Cached.{IsCache, IsServing, Reach-IsServing}
use beamforming_software.Runtime.Delivered.{IsReply, IsTaken, serve_frame-IsTaken}
use beamforming_software.Main.{running, Machine, boot}
use beamforming_software.Main.Quiet.{boot-IsBooted}
use beamforming_software.Main.Serving.{boot-Ready}
use beamforming_software.Main.Pass.{serve_frame-IsSound}

module _ {H : Type 0} (hw : CanHardware H) (laws : IsBxcan hw) (p : Peripherals)
    (chips : Chips) where
  -- A history of the service loop: it serves frames, and the bus makes steps of its own.
  pub data History (s : System (BusState H)) : System (BusState H) → Type 0 where
    now : History s s
    then_serves :
        {t : System (BusState H)}
        → History s t
        → (f : Frame) → IsFrame f
        → History s (serve_frame (bus_ops hw) p f t)
    then_bus :
        {t : System (BusState H)} {b : BusState H}
        → History s t
        → BusSteps.Step hw laws t.bus b
        → History s (record t { bus = b })

  History-Reach : {s t : System (BusState H)} → History s t → Reach (bus_ops hw) p chips s t
  History-Reach now = here
  History-Reach (then_serves h f w) = later (History-Reach h) (serves f w)
  History-Reach (then_bus {b = b} h step) = later (History-Reach h) (interrupts b)

  History-IsSound :
      {s t : System (BusState H)} → IsSound hw laws s.bus → History s t → IsSound hw laws t.bus
  History-IsSound i now = i
  History-IsSound i (then_serves {t} h f w) =
      (serve_frame-IsSound hw laws p f t (History-IsSound i h)).0
  History-IsSound i (then_bus h step) = Step-IsSound hw laws step (History-IsSound i h)

module _ {H : Type 0} (hw : CanHardware H) (laws : IsBxcan hw) (p : Peripherals) (tree : ClockTree)
    (node : ℕ) (chips : Chips) where
  boot-IsServing :
      (csr build_id : ℕ) (m : Machine (BusState H))
      → m.system.board.trace ≡ []
      → let (ending, m1) = boot (bus_ops hw) p tree csr build_id node m in
        ending ≡ running → IsServing (bus_ops hw) p chips m1.system × IsSound hw laws m1.system.bus
  boot-IsServing csr build_id m fresh up =
      let quiet = subst (IsQuietTrace chips) (sym fresh) tt in
      let booted = boot-IsBooted (bus_ops hw) p tree node chips csr build_id m quiet in
      let (safe, _) = booted.safe up in
      let ready = boot-Ready (bus_ops hw) p tree node m.system.bus csr build_id m refl up in
      (
        record {
          safe = safe;
          node = ready.numbered;
          cache =
              subst
                (IsCache (boot (bus_ops hw) p tree csr build_id node m).1.system.runtime.node_id)
                (sym ready.empty) (λ e. cc);
        },
        subst (IsSound hw laws) (sym ready.bus)
            (Reach-IsSound hw laws (BusSteps.start m.system.bus ready.setup)),
      )

  -- On a peripheral that works as documented, from power-on with an empty trace, through a boot
  -- that reaches the service loop and any history of served frames and steps of the bus: a frame
  -- of eight bytes that decodes to a unicast command is answered by one response of the node to
  -- the controller, under the command's sequence. Unless the mailboxes and the queue of eight are
  -- full, the response is in a mailbox after at least as many further interrupts as frames are
  -- then queued, if each finds a mailbox available and main sends nothing meanwhile.
  pub always_answers :
      (csr build_id : ℕ) (m : Machine (BusState H)) (s : System (BusState H)) (f : Frame)
      (c : Command)
      → m.system.board.trace ≡ []
      → let (ending, m1) = boot (bus_ops hw) p tree csr build_id node m in
        ending ≡ running
        → History hw laws p chips m1.system s
        → IsFrame f
        → decode_command f s.runtime.node_id zero_command ≡ (DecodeResult.ok, c)
        → c.destination ≢ node_broadcast
        → let t = serve_frame (bus_ops hw) p f s in
          (r : Frame) × (priority : ℕ) × IsReply s.runtime.node_id c r
          × (t.bus ≡ (CanBus.send hw r priority s.bus).1)
          × (IsFull hw laws r priority s.bus ⊎ IsTaken hw laws p chips r s.bus t.bus)
  always_answers csr build_id m s f c fresh up history w e unicast =
      let (serving, sound) = boot-IsServing csr build_id m fresh up in
      serve_frame-IsTaken hw laws p chips f s c
        (Reach-IsServing (bus_ops hw) p chips (History-Reach hw laws p chips history) serving).0
        (History-IsSound hw laws p chips sound history) w e unicast
