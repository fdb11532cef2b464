-- ===== src/Main/Serving.antt =====
-- From a boot on: the service loop starts with a set-up bus, a node's number and an empty cache.
use beamforming_software.Prelude.{
  ℕ, ◌≤◌, ◌≡◌, refl, ap, subst, arith, Bool, true, false, Option, none, some, bit_and, ltb, ◌||◌,
}
use beamforming_software.Can.Protocol.{node_min, node_max, vga_max_attenuation_db}
use beamforming_software.Platform.SpiGuard.{Peripherals}
use beamforming_software.Platform.DiagnosticRecord.{FirmwareClock, FirmwareFault, no_fault}
use beamforming_software.Platform.RetainedDiagnostics.{begin, lockout_required}
use beamforming_software.Platform.Clock.{ClockTree, ClockState, clock_setup}
use beamforming_software.Rf.Commands.{phase_state_from_millidegrees}
use beamforming_software.Rf.Plan.{Plan, zero_plan, plan_startup}
use beamforming_software.Rf.Execute.{Outputs}
use beamforming_software.Runtime.{Bus, System, zero_cache}
use beamforming_software.Runtime
use beamforming_software.Main.{
  reset_flag_mask, Ending, running, Machine, with_retained, with_board, or_fail, finish_boot,
  start_can, execute_first, execute_others, with_safe_outputs, after_safe_outputs, startup_planned,
  requested_phase, with_phase, with_clock, boot,
}

module _ {B : Type 0} (ops : Bus B) (p : Peripherals) (tree : ClockTree) (node : ℕ) (b : B) where
  -- The bus was set up, from the state `b`, for the node that then serves.
  pub record IsSetUp (s : System B) : Type 0 where
    pub setup : (ops.setup node b).0 ≡ true
    pub bus : s.bus ≡ (ops.setup node b).1
    pub numbered : s.runtime.node_id ≤ node_max
    pub empty : s.cache ≡ zero_cache

  abbrev pub Ready : Ending × Machine B → Type 0
  Ready x = x.0 ≡ running → IsSetUp x.1.system

  start-IsSetUp :
      (source : FirmwareClock) (lockout : Bool) (plan : Plan) (o : Outputs) (s : System B)
      → s.bus ≡ b
      → let x =
          Runtime.start ops p node source lockout plan.resulting_state o.last_phase_command
            o.last_vga_command s in
        x.0 ≡ true → IsSetUp x.1
  unfolding Runtime.start
  start-IsSetUp source lockout plan o s e ok =
      let numbered : ltb node node_min || ltb node_max node ≡ false = ground arith in
      let bounded : ltb vga_max_attenuation_db plan.resulting_state.attenuation_db ≡ false =
        ground arith in
      let set_up : (ops.setup node s.bus).0 ≡ true = ground arith in
      rw (numbered, bounded)
        (record {
          setup = subst (λ u. (ops.setup node u).0 ≡ true) e set_up;
          bus = ap (λ u. (ops.setup node u).1) e;
          numbered = ground arith;
          empty = refl;
        })

  finish-Ready :
      (lockout : Bool) (x : Bool × System B) (m : Machine B)
      → (x.0 ≡ true → IsSetUp x.1)
      → Ready (finish_boot ops p tree lockout node x m)
  finish-Ready lockout (true, s) m h up =
      let i = h refl in
      record { setup = i.setup; bus = i.bus; numbered = i.numbered; empty = i.empty }
  finish-Ready true (false, s) m h up = cc
  finish-Ready false (false, s) m h up = cc

  or_fail-Ready :
      (x : FirmwareFault × Outputs) (m : Machine B)
      (next : Outputs → Machine B → Ending × Machine B)
      → m.system.bus ≡ b
      → ((o : Outputs) (m : Machine B) → m.system.bus ≡ b → Ready (next o m))
      → Ready (or_fail x m next)
  or_fail-Ready (no_fault, o) m next e h = h o (with_board o.board m) e
  or_fail-Ready (cause, o) m next e h = λ up. cc

  module _ (lockout : Bool) where
    others-Ready :
        (source : FirmwareClock) (plan : Plan) (o : Outputs) (m : Machine B)
        → m.system.bus ≡ b
        → Ready (after_safe_outputs ops p tree lockout node source plan o m)
    others-Ready source plan o m e =
        or_fail-Ready (execute_others ops p tree lockout node plan o)
          (with_safe_outputs ops p tree lockout node m)
          (start_can ops p tree lockout node source plan) e
          (λ o m e. finish-Ready lockout _ _ (start-IsSetUp source lockout plan o _ e))

    planned-Ready :
        (source : FirmwareClock) (x : Bool × Plan) (m : Machine B)
        → m.system.bus ≡ b
        → Ready (startup_planned ops p tree lockout node source x m)
    planned-Ready source (false, plan) m e = λ up. cc
    planned-Ready source (true, plan) m e =
        or_fail-Ready (execute_first ops p tree lockout node plan m) m
          (after_safe_outputs ops p tree lockout node source plan) e (others-Ready source plan)

    phase-Ready :
        (source : FirmwareClock) (phase : Option ℕ) (m : Machine B)
        → m.system.bus ≡ b
        → Ready (with_phase ops p tree lockout node source phase m)
    phase-Ready source none m e = λ up. cc
    phase-Ready source (some state) m e =
        planned-Ready source (plan_startup state vga_max_attenuation_db zero_plan) m e

    clock-Ready :
        (x : Bool × FirmwareClock × ClockState) (m : Machine B)
        → m.system.bus ≡ b
        → Ready (with_clock ops p tree lockout node x m)
    clock-Ready (false, source, clock) m e = λ up. cc
    clock-Ready (true, source, clock) m e =
        phase-Ready source (phase_state_from_millidegrees (requested_phase ops p tree lockout node))
          _ e

  -- A boot that reaches the service loop has set the bus up.
  pub boot-Ready :
      (csr build_id : ℕ) (m : Machine B)
      → m.system.bus ≡ b
      → Ready (boot ops p tree csr build_id node m)
  unfolding boot
  boot-Ready csr build_id m e =
      let r0 = begin m.system.retained (bit_and csr reset_flag_mask) build_id in
      clock-Ready (lockout_required r0) (clock_setup tree m.clock) (with_retained r0 m) e
