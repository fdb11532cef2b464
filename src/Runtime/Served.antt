-- ===== src/Runtime/Served.antt =====
-- The phase shifter through histories of services: it latches only at 23 dB, faults included.
use beamforming_software.Prelude.{
  ◌≤◌, ◌≡◌, inl, inr, refl, sym, subst, arith, Bool-cases, not, ◌==◌, ◌&&◌,
}
use beamforming_software.Can.Protocol.{
  ping, enter_safe, type_value, vga_max_attenuation_db, DecodeResult, CommandResult, Frame, IsFrame,
  Command, zero_command,
}
use beamforming_software.Can.Protocol.Decode.{decode_command}
use beamforming_software.Can.Protocol.Decode.Laws.{decode-IsCommandFrame}
use beamforming_software.Can.TxQueue.{priority_ack}
use beamforming_software.Platform.SpiGuard.{Peripherals}
use beamforming_software.Rf.Plan.{zero_plan, plan_command}
use beamforming_software.Rf.Plan.Safety.{plan_command_document}
use beamforming_software.Rf.Execute.Latches.{Chips}
use beamforming_software.Runtime.{
  Bus, System, ReplayResult, miss, sequence_reuse, hit, replay_cache_lookup, planned_command,
  fresh_command, replayed, serve_decoded, serve_frame,
}
use beamforming_software.Runtime.Quiet.{
  counted, counted-IsUntouched, transmit-IsUntouched, send_error_for_frame-IsUntouched,
  send_error_for_command-IsUntouched, send_status-IsUntouched,
}
use beamforming_software.Runtime.Guarded.{IsSafe, untouched-IsSafe, run_plan-IsSafe}

module _ {B : Type 0} (ops : Bus B) (p : Peripherals) (chips : Chips) where
  fresh_command-IsSafe :
      (c : Command) (f : Frame) (s : System B)
      → c.attenuation_db ≤ vga_max_attenuation_db
      → type_value c.type ≤ 4
      → IsSafe chips s
      → IsSafe chips (fresh_command ops p c f s)
  unfolding fresh_command
  fresh_command-IsSafe c f s hc ht i = elim (Bool-cases (type_value c.type == type_value ping)) [
    | inl e ↦ rw e (untouched-IsSafe ops p chips s _ (send_status-IsUntouched ops p c s) i)
    | inr ne ↦
        elim (Bool-cases
          (s.runtime.safe_lockout && not (type_value c.type == type_value enter_safe))) [
            | inl locked ↦
                rw (ne, locked)
                  (untouched-IsSafe ops p chips s _
                    (send_error_for_command-IsUntouched ops p c CommandResult.busy s) i)
            | inr free ↦
                let (accepted, _, _, _) =
                  plan_command_document c s.runtime.state zero_plan hc i.bounded (omega arith) in
                let plan = (plan_command c s.runtime.state zero_plan).1 in
                rw (ne, free)
                  (subst (λ r. IsSafe chips (planned_command ops p (r, plan) c f s)) (sym accepted)
                    (run_plan-IsSafe ops p chips c f s hc (ground arith) i))
          ]
  ]

  replayed-IsSafe :
      (r : ReplayResult) (c : Command) (f : Frame) (s : System B)
      → c.attenuation_db ≤ vga_max_attenuation_db
      → type_value c.type ≤ 4
      → IsSafe chips s
      → IsSafe chips (replayed ops p r c f s)
  replayed-IsSafe (hit response) c f s hc ht i =
      untouched-IsSafe ops p chips s _ (transmit-IsUntouched ops p response priority_ack s) i
  replayed-IsSafe sequence_reuse c f s hc ht i =
      untouched-IsSafe ops p chips s _
        (counted-IsUntouched ops p s _ (
          send_error_for_command-IsUntouched ops p c CommandResult.sequence_reuse
            (counted ops p s)))
        i
  replayed-IsSafe miss c f s hc ht i = fresh_command-IsSafe c f s hc ht i

  serve_decoded-IsSafe :
      (d : DecodeResult) (c : Command) (f : Frame) (s : System B)
      → (d ≡ DecodeResult.ok
          → (c.attenuation_db ≤ vga_max_attenuation_db) × (type_value c.type ≤ 4))
      → IsSafe chips s
      → IsSafe chips (serve_decoded ops p (d, c) f s)
  serve_decoded-IsSafe DecodeResult.ignored c f s h i = i
  serve_decoded-IsSafe DecodeResult.ok c f s h i =
      let (hc, ht) = h refl in replayed-IsSafe (replay_cache_lookup s.cache c f) c f s hc ht i
  serve_decoded-IsSafe d c f s h i =
      untouched-IsSafe ops p chips s _
        (counted-IsUntouched ops p s _
          (send_error_for_frame-IsUntouched ops p f d (counted ops p s)))
        i

  pub serve_frame-IsSafe :
      (f : Frame) (s : System B) → IsFrame f → IsSafe chips s → IsSafe chips (serve_frame ops p f s)
  unfolding serve_frame
  serve_frame-IsSafe f s h i =
      let (d, c) = decode_command f s.runtime.node_id zero_command in
      serve_decoded-IsSafe d c f s
        (λ e.
          let w = decode-IsCommandFrame s.runtime.node_id f zero_command c h (λ k. (e k, c)) in
          (w.attenuation, w.command))
        i

  -- Main serves a frame, or the interrupts change the bus.
  pub data Step (s : System B) : System B → Type 0 where
    serves : (f : Frame) → IsFrame f → Step s (serve_frame ops p f s)
    interrupts : (bus : B) → Step s (record s { bus = bus })

  pub data Reach (s : System B) : System B → Type 0 where
    here : Reach s s
    later : {t u : System B} → Reach s t → Step t u → Reach s u

  pub Step-IsSafe : {s t : System B} → Step s t → IsSafe chips s → IsSafe chips t
  Step-IsSafe {s} (serves f h) i = serve_frame-IsSafe f s h i
  Step-IsSafe (interrupts bus) i = record {
    latched = i.latched;
    bounded = i.bounded;
    held = i.held;
  }

  -- Whatever frames are served, in whatever order with changes of the bus, and whichever transfers
  -- fail: from a safe state every state is safe. The phase shifter has latched only while the
  -- attenuator held 23 dB, the recorded commands are those that the chips hold, and the attenuator
  -- holds the recorded attenuation or, after a fault, 23 dB.
  pub Reach-IsSafe : {s t : System B} → Reach s t → IsSafe chips s → IsSafe chips t
  Reach-IsSafe here i = i
  Reach-IsSafe (later r step) i = Step-IsSafe step (Reach-IsSafe r i)
