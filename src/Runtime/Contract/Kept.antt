-- ===== src/Runtime/Contract/Kept.antt =====
-- Serving a frame keeps the contract of a unicast command.
use beamforming_software.Prelude.{
  ◌≤◌, ◌≡◌, ◌≢◌, ◌⊎◌, false, inl, inr, refl, sym, ap, subst, arith, Bool-cases, ◌==◌, not, ◌&&◌,
  length,
}
use beamforming_software.Can.Protocol.{
  ping, enter_safe, error, type_value, node_max, node_broadcast, vga_max_attenuation_db,
  DecodeResult, CommandResult, Frame, IsFrame, Command, zero_command,
}
use beamforming_software.Can.Protocol.Decode.{decode_command}
use beamforming_software.Can.Protocol.Decode.Laws.{decode-IsCommandFrame, decode_header}
use beamforming_software.Can.Protocol.Encode.Laws.{IsResponse, result_bytes}
use beamforming_software.Platform.SpiGuard.{Peripherals}
use beamforming_software.Rf.Plan.{zero_plan, plan_command}
use beamforming_software.Rf.Plan.Safety.{plan_command_document}
use beamforming_software.Runtime.{
  Bus, System, ReplayResult, miss, sequence_reuse, hit, replay_cache_lookup, planned_command,
  fresh_command, replayed, serve_decoded, serve_frame,
}
use beamforming_software.Runtime.Quiet.{counted, type_of_value}
use beamforming_software.Runtime.Reply.{IsUnicast, send_error_for_command-sent, send_status-sent}
use beamforming_software.Runtime.Contract.{
  Promise, IsAllowed, reported, repeated, reused, locked_out, run_plan-Promise,
}

module _ {B : Type 0} (ops : Bus B) (p : Peripherals) (c : Command) (request : Frame)
    (u : IsUnicast c) where
  unlocked_of :
      (s : System B)
      → (s.runtime.safe_lockout && not (type_value c.type == type_value enter_safe)) ≡ false
      → (s.runtime.safe_lockout ≡ false) ⊎ (c.type ≡ enter_safe)
  unlocked_of s h = elim (Bool-cases s.runtime.safe_lockout) [
    | inl on ↦ inr (type_of_value c.type enter_safe (ground arith))
    | inr off ↦ inl off
  ]

  fresh_command-Promise :
      (s : System B)
      → s.runtime.node_id ≤ node_max
      → c.attenuation_db ≤ vga_max_attenuation_db
      → s.runtime.state.attenuation_db ≤ vga_max_attenuation_db
      → replay_cache_lookup s.cache c request ≡ miss
      → type_value c.type ≤ 4
      → request.dlc ≤ length request.payload
      → Promise ops p c request s (fresh_command ops p c request s)
  unfolding fresh_command
  fresh_command-Promise s hn hc hs first ht fits =
      elim (Bool-cases (type_value c.type == type_value ping)) [
        | inl e ↦
            let (f, says, out) = send_status-sent ops p c u s hn in
            rw (e, out) (reported f first (type_of_value c.type ping (ground arith)) says)
        | inr ne ↦
            let not_ping : c.type ≢ ping = λ e. let value = ap type_value e in ground arith in
            elim (Bool-cases
              (s.runtime.safe_lockout && not (type_value c.type == type_value enter_safe))) [
                | inl locked ↦
                    let (f, says, out) =
                      send_error_for_command-sent ops p c u CommandResult.busy s hn in
                    rw (ne, locked, out)
                      (locked_out f first not_ping (ground arith)
                        (λ e. let value = ap type_value e in ground arith) says)
                | inr free ↦
                    let allowed : IsAllowed ops p c request s = record {
                      first_time = first;
                      not_ping = not_ping;
                      unlocked = unlocked_of s free;
                    } in
                    let (accepted, _, _, _) =
                      plan_command_document c s.runtime.state zero_plan hc hs (omega arith) in
                    let plan = (plan_command c s.runtime.state zero_plan).1 in
                    rw (ne, free)
                      (subst
                        (λ r.
                          Promise ops p c request s (planned_command ops p (r, plan) c request s))
                        (sym accepted)
                        (run_plan-Promise ops p c request u s hn hc hs allowed (ground arith) fits))
              ]
      ]

  replayed-Promise :
      (r : ReplayResult) (s : System B)
      → s.runtime.node_id ≤ node_max
      → c.attenuation_db ≤ vga_max_attenuation_db
      → s.runtime.state.attenuation_db ≤ vga_max_attenuation_db
      → replay_cache_lookup s.cache c request ≡ r
      → type_value c.type ≤ 4
      → request.dlc ≤ length request.payload
      → Promise ops p c request s (replayed ops p r c request s)
  replayed-Promise (hit f) s hn hc hs e ht fits = repeated f e
  replayed-Promise sequence_reuse s hn hc hs e ht fits =
      let t = counted ops p s in
      let node : t.runtime.node_id ≡ s.runtime.node_id = ground arith in
      let (f, says, out) =
        send_error_for_command-sent ops p c u CommandResult.sequence_reuse t
          (subst (λ n. n ≤ node_max) (sym node) hn) in
      subst (Promise ops p c request s) (sym out) (
        reused f e (
          subst
            (λ n.
              IsResponse error n c.sequence 2 (result_bytes c.type CommandResult.sequence_reuse) f)
            node says))
  replayed-Promise miss s hn hc hs e ht fits = fresh_command-Promise s hn hc hs e ht fits

pub serve_frame-Promise :
    {B : Type 0} (ops : Bus B) (p : Peripherals) (f : Frame) (s : System B) (c : Command)
    → IsFrame f
    → s.runtime.node_id ≤ node_max
    → s.runtime.state.attenuation_db ≤ vga_max_attenuation_db
    → decode_command f s.runtime.node_id zero_command ≡ (DecodeResult.ok, c)
    → c.destination ≢ node_broadcast
    → Promise ops p c f s (serve_frame ops p f s)
unfolding serve_frame
serve_frame-Promise ops p f s c h hn hs e unicast =
    let w = decode-IsCommandFrame s.runtime.node_id f zero_command c h e in
    let (_, _, short, _, _, _) = decode_header f s.runtime.node_id zero_command c e in
    let u : IsUnicast c = record {
      from_controller = w.source;
      unicast = unicast;
      sequence_in = w.fields.sequence_in;
      known = w.fields.type_in;
    } in
    subst (λ x. Promise ops p c f s (serve_decoded ops p x f s)) (sym e)
      (replayed-Promise ops p c f u (replay_cache_lookup s.cache c f) s hn w.attenuation hs refl
        w.command (omega (arith, h.eight, short)))
