-- ===== src/Main/Session/Failed.antt =====
-- Boots that fail, one after the other, and the safe lockout that they lead to.
use beamforming_software.Prelude.{
  ℕ, ◌≡◌, inl, inr, refl, sym, ◌∙◌, ap, subst₂, leb, List, [], ◌∷◌, ◌++◌, bit_and, ◌+◌, ◌≤◌, length,
  length-append, uint8_max,
}
use beamforming_software.Platform.SpiGuard.{Peripherals}
use beamforming_software.Platform.DiagnosticRecord.{DiagnosticRecord}
use beamforming_software.Platform.RetainedDiagnostics.{begin, lockout_required}
use beamforming_software.Platform.RetainedDiagnostics.Lockout.{
  retain_all, Session, run, NeverHealthy, AllIncomplete,
}
use beamforming_software.Platform.RetainedDiagnostics.Lockout.Exact.{earlier, lockout_exact}
use beamforming_software.Platform.Clock.{ClockTree}
use beamforming_software.Runtime.{Bus}
use beamforming_software.Main.{reset_flag_mask, reset, Machine, boot}
use beamforming_software.Main.Session.{boot-IsSession}

AllIncomplete-append :
    (ss : List Session) (s : Session)
    → AllIncomplete ss
    → NeverHealthy s.updates
    → AllIncomplete (ss ++ s ∷ [])
AllIncomplete-append [] s h k = (k, tt)
AllIncomplete-append (x ∷ ss) s (h, hs) k = (h, AllIncomplete-append ss s hs k)

module _ (build_id : ℕ) where
  run-append :
      (r : DiagnosticRecord) (ss : List Session) (s : Session)
      → run r build_id (ss ++ s ∷ [])
        ≡ retain_all (begin (run r build_id ss) s.reset_flags build_id) s.updates
  unfolding run
  run-append r [] s = refl
  run-append r (x ∷ ss) s = run-append (retain_all (begin r x.reset_flags build_id) x.updates) ss s

  abbrev SessionsOf : DiagnosticRecord → ℕ → DiagnosticRecord → Type 0
  SessionsOf r n last =
      (ss : List Session) × (run r build_id ss ≡ last) × AllIncomplete ss × (length ss ≡ n)

module _ (B : Type 0) (build_id node : ℕ) where
  -- Boots of one build, one after the other, that all end in a reset. The peripherals, the clock
  -- tree and all memory but the retained record are anything at each boot.
  pub data FailedBoots (r : DiagnosticRecord) : ℕ → DiagnosticRecord → Type 0 where
    none_yet : FailedBoots r 0 r
    once_more :
        {n : ℕ} {last : DiagnosticRecord}
        → FailedBoots r n last
        → (ops : Bus B) (p : Peripherals) (tree : ClockTree) (csr : ℕ) (m : Machine B)
        → m.system.retained ≡ last
        → (boot ops p tree csr build_id node m).0 ≡ reset
        → FailedBoots r (n + 1) (boot ops p tree csr build_id node m).1.system.retained

  FailedBoots-sessions :
      {r last : DiagnosticRecord} {n : ℕ} → FailedBoots r n last → SessionsOf build_id r n last
  unfolding run
  FailedBoots-sessions none_yet = ([], refl, tt, refl)
  FailedBoots-sessions {r} (once_more {n} {last} before ops p tree csr m same failed) =
      let (ss, e, incomplete, long) = FailedBoots-sessions before in
      elim (boot-IsSession ops p tree node csr build_id m) [
        | inr (us, _, served, _) ↦ cc
        | inl (us, out, never) ↦
            let s : Session = record { reset_flags = bit_and csr reset_flag_mask; updates = us } in
            (
              ss ++ s ∷ [],
              run-append build_id r ss s
                  ∙ (ap (λ x. retain_all (begin x s.reset_flags build_id) us) (e ∙ sym same)
                      ∙ sym out),
              AllIncomplete-append ss s incomplete never,
              length-append ss (s ∷ []) ∙ ap (λ k. k + 1) long,
            )
      ]

  -- Whatever the retained memory `r` held, with a count of boots in a byte, after `n` boots of
  -- one build in a row that all ended in a reset the next boot of the build asks for the safe
  -- lockout exactly if these and the incomplete boots that `r` shows are together at least three:
  -- none if `r` is not a valid record of the build or is of a healthy boot, and one more than it
  -- counts otherwise.
  pub lockout_after-FailedBoots :
      (r last : DiagnosticRecord) (n flags : ℕ)
      → FailedBoots r n last
      → r.consecutive_incomplete_boots ≤ uint8_max
      → lockout_required (begin last flags build_id) ≡ leb 3 (earlier r build_id + n)
  lockout_after-FailedBoots r last n flags h byte =
      let (ss, e, incomplete, long) = FailedBoots-sessions h in
      subst₂ (λ x k. lockout_required (begin x flags build_id) ≡ leb 3 (earlier r build_id + k)) e
        long (lockout_exact r ss flags build_id byte incomplete)
