-- ===== src/Main/Session.antt =====
-- A boot as a session of the retained record: which updates it makes, and that only a boot that
-- reaches the service loop outside the lockout makes the record healthy.
pub mod Failed
use beamforming_software.Prelude.{
  ℕ, ◌≡◌, ◌⊎◌, inl, inr, refl, sym, ◌∙◌, ap, subst, arith, Bool, true, false, Option, none, some,
  List, [], ◌∷◌, ◌++◌, bit_and, ◌+◌, ◌≤◌, length, length-append, uint8_max,
}
use beamforming_software.Platform.SpiGuard.{Peripherals}
use beamforming_software.Platform.DiagnosticRecord.{
  DiagnosticRecord, FirmwareClock, FirmwareFault, no_fault, clock_startup, phase_command, can_init,
  clock_ready, safe_outputs, safe_lockout,
}
use beamforming_software.Platform.DiagnosticRecord.Seal.{
  Update, to_state, to_clock, to_commands, to_fault, to_healthy,
}
use beamforming_software.Platform.RetainedDiagnostics
use beamforming_software.Platform.RetainedDiagnostics.{begin, lockout_required}
use beamforming_software.Platform.RetainedDiagnostics.Lockout.{
  retain, retain_all, Session, run, NeverHealthy, AllIncomplete,
}
use beamforming_software.Platform.Clock.{ClockTree, ClockState, clock_setup}
use beamforming_software.Rf.Plan.{Plan}
use beamforming_software.Rf.Execute.{Outputs}
use beamforming_software.Runtime.{Bus, System}
use beamforming_software.Runtime
use beamforming_software.Main.{
  reset_flag_mask, Ending, running, reset, Machine, with_retained, with_board, fail, or_fail,
  finish_boot, start_can, execute_first, execute_others, with_safe_outputs, after_safe_outputs,
  startup_planned, with_phase, with_clock, boot,
}

-- from `r0` by updates of which none makes it healthy
abbrev pub Incomplete : DiagnosticRecord → DiagnosticRecord → Type 0
Incomplete r0 r = (us : List Update) × (r ≡ retain_all r0 us) × NeverHealthy us

retain_all-append :
    (r : DiagnosticRecord) (us vs : List Update)
    → retain_all r (us ++ vs) ≡ retain_all (retain_all r us) vs
unfolding retain_all
retain_all-append r [] vs = refl
retain_all-append r (u ∷ us) vs = retain_all-append (retain r u) us vs

NeverHealthy-append :
    (us : List Update) (u : Update)
    → NeverHealthy us
    → NeverHealthy (u ∷ [])
    → NeverHealthy (us ++ u ∷ [])
NeverHealthy-append [] u h k = k
NeverHealthy-append (to_healthy ∷ us) u h k = absurd h
NeverHealthy-append (to_state s ∷ us) u (ne, h) k = (ne, NeverHealthy-append us u h k)
NeverHealthy-append (_ ∷ us) u h k = NeverHealthy-append us u h k

Incomplete-retain :
    (r0 r : DiagnosticRecord) (u : Update)
    → NeverHealthy (u ∷ [])
    → Incomplete r0 r
    → Incomplete r0 (retain r u)
unfolding retain_all
Incomplete-retain r0 r u h (us, e, never) = (
  us ++ u ∷ [],
  ap (λ x. retain x u) e ∙ sym (retain_all-append r0 us (u ∷ [])),
  NeverHealthy-append us u never h,
)

module _ {B : Type 0} where
  -- What a boot from `r0` on leaves: updates of the record, none of which makes it healthy unless
  -- the service loop is reached outside the lockout.
  abbrev pub IsSession : Bool → DiagnosticRecord → Ending × Machine B → Type 0
  IsSession lockout r0 x =
      Incomplete r0 x.1.system.retained
      ⊎ ((us : List Update) × (x.1.system.retained ≡ retain_all r0 us)
          × (x.0 ≡ running)
          × (lockout ≡ false))

  fail-IsSession :
      (lockout : Bool) (r0 : DiagnosticRecord) (cause : FirmwareFault) (m : Machine B)
      → Incomplete r0 m.system.retained
      → IsSession lockout r0 (fail cause m)
  unfolding retain
  fail-IsSession lockout r0 cause m i =
      inl (Incomplete-retain r0 m.system.retained (to_fault cause) tt i)

  or_fail-IsSession :
      (lockout : Bool) (r0 : DiagnosticRecord) (x : FirmwareFault × Outputs) (m : Machine B)
      (next : Outputs → Machine B → Ending × Machine B)
      → Incomplete r0 m.system.retained
      → ((o : Outputs) (m1 : Machine B)
          → Incomplete r0 m1.system.retained
          → IsSession lockout r0 (next o m1))
      → IsSession lockout r0 (or_fail x m next)
  or_fail-IsSession lockout r0 (no_fault, o) m next i h = h o (with_board o.board m) i
  or_fail-IsSession lockout r0 (cause, o) m next i h =
      fail-IsSession lockout r0 cause (with_board o.board m) i

module _ {B : Type 0} (ops : Bus B) (p : Peripherals) (tree : ClockTree) (node : ℕ) where
  -- The start of the runtime leaves the retained record alone.
  start-retained :
      (source : FirmwareClock) (lockout : Bool) (plan : Plan) (o : Outputs) (s : System B)
      → (Runtime.start ops p node source lockout plan.resulting_state o.last_phase_command
          o.last_vga_command s).1.retained
        ≡ s.retained
  unfolding Runtime.start
  start-retained source lockout plan o s = ground arith

  finish_boot-IsSession :
      (lockout : Bool) (r0 : DiagnosticRecord) (x : Bool × System B) (m : Machine B)
      → Incomplete r0 x.1.retained
      → IsSession lockout r0 (finish_boot ops p tree lockout node x m)
  unfolding retain retain_all
  finish_boot-IsSession true r0 (true, s) m i =
      inl (Incomplete-retain r0 s.retained (to_state safe_lockout) ((λ e. cc), tt) i)
  finish_boot-IsSession true r0 (false, s) m i = inl (
      Incomplete-retain r0 _ (to_state safe_lockout) ((λ e. cc), tt)
        (Incomplete-retain r0 s.retained (to_fault can_init) tt i))
  finish_boot-IsSession false r0 (false, s) m i =
      fail-IsSession false r0 can_init (record m { system = s }) i
  finish_boot-IsSession false r0 (true, s) m (us, e, never) = inr (
    us ++ to_healthy ∷ [],
    ap (λ x. retain x to_healthy) e ∙ sym (retain_all-append r0 us (to_healthy ∷ [])),
    refl,
    refl,
  )

  start_can-IsSession :
      (lockout : Bool) (r0 : DiagnosticRecord) (source : FirmwareClock) (plan : Plan) (o : Outputs)
      (m : Machine B)
      → Incomplete r0 m.system.retained
      → IsSession lockout r0 (start_can ops p tree lockout node source plan o m)
  unfolding retain
  start_can-IsSession lockout r0 source plan o m i =
      let recorded =
        with_retained
          (RetainedDiagnostics.set_commands m.system.retained o.last_phase_command
            o.last_vga_command)
          m in
      finish_boot-IsSession lockout r0 _ recorded (
        subst (Incomplete r0) (sym (start-retained source lockout plan o recorded.system)) (
          Incomplete-retain r0 m.system.retained
            (to_commands o.last_phase_command o.last_vga_command) tt i))

  startup_planned-IsSession :
      (lockout : Bool) (r0 : DiagnosticRecord) (source : FirmwareClock) (x : Bool × Plan)
      (m : Machine B)
      → Incomplete r0 m.system.retained
      → IsSession lockout r0 (startup_planned ops p tree lockout node source x m)
  unfolding retain
  startup_planned-IsSession lockout r0 source (false, plan) m i =
      fail-IsSession lockout r0 phase_command m i
  startup_planned-IsSession lockout r0 source (true, plan) m i =
      or_fail-IsSession lockout r0 (execute_first ops p tree lockout node plan m) m
        (after_safe_outputs ops p tree lockout node source plan) i
        (λ o m1 i1.
          or_fail-IsSession lockout r0 (execute_others ops p tree lockout node plan o)
            (with_safe_outputs ops p tree lockout node m1)
            (start_can ops p tree lockout node source plan)
            (Incomplete-retain r0 m1.system.retained (to_state safe_outputs) ((λ e. cc), tt) i1)
            (λ o2 m2 i2. start_can-IsSession lockout r0 source plan o2 m2 i2))

  with_phase-IsSession :
      (lockout : Bool) (r0 : DiagnosticRecord) (source : FirmwareClock) (x : Option ℕ)
      (m : Machine B)
      → Incomplete r0 m.system.retained
      → IsSession lockout r0 (with_phase ops p tree lockout node source x m)
  with_phase-IsSession lockout r0 source none m i = fail-IsSession lockout r0 phase_command m i
  with_phase-IsSession lockout r0 source (some phase_state) m i =
      startup_planned-IsSession lockout r0 source _ m i

  with_clock-IsSession :
      (lockout : Bool) (r0 : DiagnosticRecord) (x : Bool × FirmwareClock × ClockState)
      (m : Machine B)
      → Incomplete r0 m.system.retained
      → IsSession lockout r0 (with_clock ops p tree lockout node x m)
  unfolding retain
  with_clock-IsSession lockout r0 (false, source, clock) m i =
      fail-IsSession lockout r0 clock_startup (record m { clock = clock }) i
  with_clock-IsSession lockout r0 (true, source, clock) m i =
      with_phase-IsSession lockout r0 source _ _ (
        Incomplete-retain r0 _ (to_state clock_ready) ((λ e. cc), tt)
          (Incomplete-retain r0 m.system.retained (to_clock source) tt i))

  -- A boot updates the retained record, which it began, in some order. Unless it reaches the
  -- service loop outside the lockout, none of its updates makes the record healthy.
  pub boot-IsSession :
      (csr build_id : ℕ) (m : Machine B)
      → let r0 = begin m.system.retained (bit_and csr reset_flag_mask) build_id in
        IsSession (lockout_required r0) r0 (boot ops p tree csr build_id node m)
  unfolding boot retain_all
  boot-IsSession csr build_id m =
      let r0 = begin m.system.retained (bit_and csr reset_flag_mask) build_id in
      with_clock-IsSession (lockout_required r0) r0 (clock_setup tree m.clock) (with_retained r0 m)
        ([], refl, tt)
