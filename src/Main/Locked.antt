-- ===== src/Main/Locked.antt =====
-- A boot of the safe lockout and the services after it: the outputs stay safe.
use beamforming_software.Prelude.{
  ◌+◌, leb, arith, ℕ, ◌*◌, ◌≤◌, ◌≡◌, ◌≢◌, sym, ◌∙◌, subst, true, [], bit_and, uint8_max,
}
use beamforming_software.Can.Protocol.{vga_max_attenuation_db}
use beamforming_software.Platform.SpiGuard.{Peripherals}
use beamforming_software.Platform.DiagnosticRecord.{DiagnosticRecord}
use beamforming_software.Platform.RetainedDiagnostics.{begin, lockout_required}
use beamforming_software.Platform.Clock.{ClockTree}
use beamforming_software.Rf.Plan.Safety.{phase_word_of}
use beamforming_software.Rf.Execute.Latches.{Chips, chips_after, IsQuietTrace}
use beamforming_software.Runtime.{Bus, System}
use beamforming_software.Runtime.Served.{Reach}
use beamforming_software.Runtime.Locked.{IsLocked, Reach-IsLocked}
use beamforming_software.Main.{reset_flag_mask, Ending, running, reset, Machine, boot}
use beamforming_software.Platform.RetainedDiagnostics.Lockout.Exact.{earlier}
use beamforming_software.Main.Session.Failed.{FailedBoots, lockout_after-FailedBoots}
use beamforming_software.Main.Booted.{IsBooted}
use beamforming_software.Main.Quiet.{boot-IsBooted}

enough : (k n : ℕ) → 3 ≤ n → leb 3 (k + n) ≡ true
enough k n h = ground arith

module _ {B : Type 0} (c : Chips) where
  -- The lockout is on, and the chips hold phase state 0 at 23 dB.
  pub record HoldsSafe (t : System B) : Type 0 where
    pub locked : t.runtime.safe_lockout ≡ true
    pub phase_held : (chips_after c t.board.trace).phase_word ≡ phase_word_of 0
    pub vga_held : (chips_after c t.board.trace).vga_byte ≡ vga_max_attenuation_db * 4

module _ {B : Type 0} (ops : Bus B) (p : Peripherals) (tree : ClockTree) (node : ℕ)
    (c : Chips) where
  IsBooted-IsLocked :
      (x : Ending × Machine B) → IsBooted c true x → x.0 ≡ running → IsLocked ops p c x.1.system
  IsBooted-IsLocked x b up =
      let (safe, locked) = b.safe up in
      let l = safe.latched in
      let alive : x.0 ≢ reset = λ e. cc in
      record {
        safe = safe;
        locked = locked;
        shown = (sym l.phase_latched ∙ b.phase_set alive, sym l.vga_latched ∙ b.attenuated alive);
      }

  IsLocked-HoldsSafe : (t : System B) → IsLocked ops p c t → HoldsSafe c t
  IsLocked-HoldsSafe t i =
      let l = i.safe.latched in
      record {
        locked = i.locked;
        phase_held = l.phase_latched ∙ i.shown.0;
        vga_held = l.vga_latched ∙ i.shown.1;
      }

  -- From power-on, with an empty trace and whatever the chips hold, through a boot of the safe
  -- lockout that reaches the service loop and any history of served frames, failed transfers and
  -- changes of the bus, the lockout stays on and the chips hold phase state 0 at 23 dB.
  pub lockout-HoldsSafe :
      (csr build_id : ℕ) (m : Machine B) (t : System B)
      → m.system.board.trace ≡ []
      → lockout_required (begin m.system.retained (bit_and csr reset_flag_mask) build_id) ≡ true
      → let (ending, m1) = boot ops p tree csr build_id node m in
        ending ≡ running → Reach ops p c m1.system t → HoldsSafe c t
  lockout-HoldsSafe csr build_id m t fresh required up r =
      let x = boot ops p tree csr build_id node m in
      let quiet = subst (IsQuietTrace c) (sym fresh) tt in
      let booted =
        subst (λ l. IsBooted c l x) required
          (boot-IsBooted ops p tree node c csr build_id m quiet) in
      IsLocked-HoldsSafe t (Reach-IsLocked ops p c r (IsBooted-IsLocked x booted up))

  -- After at least three boots of one build in a row that all ended in a reset, from a retained
  -- memory with a count of boots in a byte, the same holds of the next boot of the build: if it
  -- starts with an empty trace and reaches the service loop, then through any history of served
  -- frames, failed transfers and changes of the bus the lockout stays on and the chips hold phase
  -- state 0 at 23 dB.
  pub FailedBoots-HoldsSafe :
      (csr build_id n : ℕ) (r : DiagnosticRecord) (m : Machine B) (t : System B)
      → FailedBoots B build_id node r n m.system.retained
      → 3 ≤ n
      → r.consecutive_incomplete_boots ≤ uint8_max
      → m.system.board.trace ≡ []
      → let (ending, m1) = boot ops p tree csr build_id node m in
        ending ≡ running → Reach ops p c m1.system t → HoldsSafe c t
  FailedBoots-HoldsSafe csr build_id n r m t failed three byte fresh =
      lockout-HoldsSafe csr build_id m t fresh (
        lockout_after-FailedBoots B build_id node r m.system.retained n
          (bit_and csr reset_flag_mask) failed byte
        ∙ enough (earlier r build_id) n three)
