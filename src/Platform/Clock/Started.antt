-- ===== src/Platform/Clock/Started.antt =====
-- What the set-up of the clock ends with.
use beamforming_software.Prelude.{
  ℕ, ◌+◌, ◌*◌, ◌≤◌, ◌≡◌, ◌⊎◌, inl, inr, refl, ◌∙◌, arith, Bool, true, false, Bool-cases, length,
}
use beamforming_software.Platform.DiagnosticRecord.{hse_pll, hsi48, unknown}
use beamforming_software.Platform.Clock.{
  core_clock_hz, startup_iteration_limit, Oscillator, hse, pll, hsi48_osc, cr, cr2, cfgr,
  ClockEvent, osc_on, osc_off, sysclk, css_on, css_off, wait_states, ClockTree, ClockState, does,
  poll_loop, when_ready, start_pll, configure_48mhz_bus_and_flash, publish_48mhz_frequencies,
  try_hse_pll, try_hsi48, clock_setup,
}
use beamforming_software.Platform.Clock.Switch.{
  Happened, Seen, SeenReady, IsSafeSwitch, IsProgress, IsProgress-trans, does-IsProgress,
  poll_loop-IsProgress,
}

module _ (t : ClockTree) where
  when_ready-elim :
      (x : Bool × ClockState) (next : ClockState → Bool × ClockState)
      (P : Bool × ClockState → Type 0)
      → (x.0 ≡ true → P (next x.1))
      → (x.0 ≡ false → P (false, x.1))
      → P (when_ready t x next)
  when_ready-elim (true, s) next P on off = on refl
  when_ready-elim (false, s) next P on off = off refl

  abbrev Published : ClockState → Type 0
  Published s = (s.apb1_frequency ≡ core_clock_hz) × (s.ahb_frequency ≡ core_clock_hz)

  -- the value of the status field that shows a source to be the clock
  abbrev sws_value : Oscillator → ℕ
  sws_value hsi48_osc = t.cfgr_sws_hsi48
  sws_value _ = t.cfgr_sws_pll

  -- An attempt to start a source: safe and within `n` accesses. A success has the source seen to be
  -- the clock, and the frequencies published; a failure publishes nothing.
  record IsTried (n : ℕ) (o : Oscillator) (s : ClockState) (r : Bool × ClockState) : Type 0 where
    safe : IsSafeSwitch t r.1.trace
    few : length r.1.trace ≤ length s.trace + n
    success : r.0 ≡ true → Published r.1 × Seen t cfgr t.cfgr_sws (sws_value o) r.1.trace
    failure :
        r.0 ≡ false
        → (r.1.apb1_frequency ≡ s.apb1_frequency) × (r.1.ahb_frequency ≡ s.ahb_frequency)

  failed-IsTried :
      (m n : ℕ) (o : Oscillator) (s s' : ClockState)
      → m ≤ n
      → IsProgress t m s s'
      → IsTried n o s (false, s')
  failed-IsTried m n o s s' h g = record {
    safe = g.safe;
    few = omega (arith, g.few);
    success = λ e. cc;
    failure = λ e. (g.same_apb, g.same_ahb);
  }

  abbrev limit : ℕ
  limit = startup_iteration_limit

  configure-IsProgress :
      (s : ClockState)
      → IsSafeSwitch t s.trace
      → IsProgress t 4 s (configure_48mhz_bus_and_flash t s)
  configure-IsProgress s h = record {
    safe = h;
    kept = λ e k. inr (inr (inr (inr k)));
    same_apb = refl;
    same_ahb = refl;
    few = omega arith;
  }

  start_pll-IsProgress :
      (s : ClockState)
      → IsSafeSwitch t s.trace
      → SeenReady t hse s.trace
      → IsProgress t 8 s (start_pll t s)
  start_pll-IsProgress s h (value, seen, ready) = record {
    safe = (
      inr (inr (inl refl)),
      inr (inl refl),
      (value, inr (inr (inr (inr (inr (inr (inr seen)))))), ready),
      h,
    );
    kept = λ e k. inr (inr (inr (inr (inr (inr (inr (inr k)))))));
    same_apb = refl;
    same_ahb = refl;
    few = omega arith;
  }

  -- the end of an attempt: the source is asked to be the clock
  abbrev switched : Oscillator → ClockState → Bool × ClockState
  switched o s = poll_loop t limit cfgr t.cfgr_sws (sws_value o) (does (sysclk o) s)

  switched-IsTried :
      (m n : ℕ) (o : Oscillator) (s s' : ClockState) (finish : ClockState → ClockState)
      → m + 1 + startup_iteration_limit + 3 ≤ n
      → IsProgress t m s s'
      → Happened wait_states s'.trace
      → SeenReady t o s'.trace
      → ((u : ClockState)
          → IsSafeSwitch t u.trace
          → IsSafeSwitch t (finish u).trace
            × Published (finish u)
            × ((e : ClockEvent) → Happened e u.trace → Happened e (finish u).trace)
            × (length (finish u).trace ≤ length u.trace + 3))
      → IsTried n o s (when_ready t (switched o s') (λ u. (true, finish u)))
  switched-IsTried m n o s s' finish h g flash ready last =
      let asked = does-IsProgress t (sysclk o) s' (flash, ready, g.safe) in
      let (waited, seen) =
        poll_loop-IsProgress t limit cfgr t.cfgr_sws (sws_value o) (does (sysclk o) s')
          asked.safe in
      let so_far =
        IsProgress-trans t m (1 + limit) (m + (1 + limit)) s s' _ (omega arith) g
          (IsProgress-trans t 1 limit (1 + limit) s' _ _ (omega arith) asked waited) in
      when_ready-elim (switched o s') (λ u. (true, finish u)) (IsTried n o s)
        (λ e.
          let (value, found, shown) = seen e in
          let (safe, frequencies, kept, few) = last (switched o s').1 waited.safe in
          record {
            safe = safe;
            few = omega (arith, so_far.few, few);
            success = λ k. (frequencies, (value, kept _ found, shown));
            failure = λ k. cc;
          })
        (λ e. failed-IsTried (m + (1 + limit)) n o s _ (omega arith) so_far)

  -- from the crystal seen ready on
  pll_stage-IsTried :
      (s s' : ClockState)
      → IsProgress t (1 + startup_iteration_limit) s s'
      → SeenReady t hse s'.trace
      → IsTried (3 * startup_iteration_limit + 20) pll s (
          when_ready t (poll_loop t limit cr t.cr_pllrdy t.cr_pllrdy (start_pll t s')) (λ s2.
            when_ready t
              (switched pll s2)
              (λ s3. (true, publish_48mhz_frequencies t (does css_on s3)))))
  pll_stage-IsTried s s' g ready =
      let started = start_pll-IsProgress s' g.safe ready in
      let (waited, seen) =
        poll_loop-IsProgress t limit cr t.cr_pllrdy t.cr_pllrdy (start_pll t s') started.safe in
      let s2 = (poll_loop t limit cr t.cr_pllrdy t.cr_pllrdy (start_pll t s')).1 in
      let so_far =
        IsProgress-trans t (1 + limit) (8 + limit) (2 * limit + 9) s s' s2 (omega arith) g (
          IsProgress-trans t 8 limit (8 + limit) s' (start_pll t s') s2 (omega arith) started
            waited) in
      when_ready-elim (poll_loop t limit cr t.cr_pllrdy t.cr_pllrdy (start_pll t s')) _
        (IsTried (3 * limit + 20) pll s)
        (λ e.
          switched-IsTried (2 * limit + 9) (3 * limit + 20) pll s s2
            (λ s3. publish_48mhz_frequencies t (does css_on s3)) (omega arith) so_far
            (waited.kept _ (inr (inr (inr (inr (inl refl)))))) (seen e)
            (λ u h. (h, (refl, refl), (λ x k. inr k), omega arith)))
        (λ e. failed-IsTried (2 * limit + 9) (3 * limit + 20) pll s s2 (omega arith) so_far)

  try_hse_pll-IsTried :
      (s : ClockState)
      → IsSafeSwitch t s.trace
      → IsTried (3 * startup_iteration_limit + 20) pll s (try_hse_pll t s)
  unfolding try_hse_pll
  try_hse_pll-IsTried s h =
      let on = does-IsProgress t (osc_on hse) s h in
      let (waited, seen) =
        poll_loop-IsProgress t limit cr t.cr_hserdy t.cr_hserdy (does (osc_on hse) s) on.safe in
      let so_far = IsProgress-trans t 1 limit (1 + limit) s _ _ (omega arith) on waited in
      when_ready-elim (poll_loop t limit cr t.cr_hserdy t.cr_hserdy (does (osc_on hse) s)) _
        (IsTried (3 * limit + 20) pll s) (λ e. pll_stage-IsTried s _ so_far (seen e))
        (λ e. failed-IsTried (1 + limit) (3 * limit + 20) pll s _ (omega arith) so_far)

  try_hsi48-IsTried :
      (s : ClockState)
      → IsSafeSwitch t s.trace
      → IsTried (2 * startup_iteration_limit + 20) hsi48_osc s (try_hsi48 t s)
  unfolding try_hsi48
  try_hsi48-IsTried s h =
      let on = does-IsProgress t (osc_on hsi48_osc) s h in
      let (waited, seen) =
        poll_loop-IsProgress t limit cr2 t.cr2_hsi48rdy t.cr2_hsi48rdy (does (osc_on hsi48_osc) s)
          on.safe in
      let s1 =
        (poll_loop t limit cr2 t.cr2_hsi48rdy t.cr2_hsi48rdy (does (osc_on hsi48_osc) s)).1 in
      let so_far = IsProgress-trans t 1 limit (1 + limit) s _ s1 (omega arith) on waited in
      let configured = configure-IsProgress s1 waited.safe in
      when_ready-elim
        (poll_loop t limit cr2 t.cr2_hsi48rdy t.cr2_hsi48rdy (does (osc_on hsi48_osc) s)) _
        (IsTried (2 * limit + 20) hsi48_osc s)
        (λ e.
          let (value, found, shown) = seen e in
          switched-IsTried (5 + limit) (2 * limit + 20) hsi48_osc s _
            (λ s2.
              publish_48mhz_frequencies t
                (does (osc_off hse) (does (osc_off pll) (does css_off s2))))
            (omega arith)
            (IsProgress-trans t (1 + limit) 4 (5 + limit) s s1 _ (omega arith) so_far configured)
            (inl refl) (value, configured.kept _ found, shown)
            (λ u k. (k, (refl, refl), (λ x l. inr (inr (inr l))), omega arith)))
        (λ e. failed-IsTried (1 + limit) (2 * limit + 20) hsi48_osc s s1 (omega arith) so_far)

  -- The set-up of the clock, from a clock tree that was not touched unsafely, always ends, within
  -- 5 000 040 accesses. It turns the PLL on only with its factor and source set and the crystal
  -- seen ready, and switches the clock only to a source seen ready and with the flash's wait
  -- states set. A success reports the source that was seen to be the clock, with 48 MHz published
  -- for both buses; a failure reports an unknown clock and publishes nothing.
  pub clock_setup-IsSafeSwitch :
      (s : ClockState)
      → IsSafeSwitch t s.trace
      → let (started, source, s') = clock_setup t s in
        IsSafeSwitch t s'.trace
        × (length s'.trace ≤ length s.trace + 5000040)
        × (((started ≡ true)
              × (s'.apb1_frequency ≡ core_clock_hz)
              × (s'.ahb_frequency ≡ core_clock_hz)
              × (((source ≡ hse_pll) × Seen t cfgr t.cfgr_sws t.cfgr_sws_pll s'.trace)
                  ⊎ ((source ≡ hsi48) × Seen t cfgr t.cfgr_sws t.cfgr_sws_hsi48 s'.trace)))
            ⊎ ((started ≡ false)
                × (source ≡ unknown)
                × (s'.apb1_frequency ≡ s.apb1_frequency)
                × (s'.ahb_frequency ≡ s.ahb_frequency)))
  unfolding clock_setup
  clock_setup-IsSafeSwitch s h =
      let first = try_hse_pll-IsTried s h in
      let s1 = (try_hse_pll t s).1 in
      let second = try_hsi48-IsTried s1 first.safe in
      elim (Bool-cases (try_hse_pll t s).0) [
        | inl on ↦
            let (frequencies, seen) = first.success on in
            rw on (
              first.safe,
              omega (arith, first.few),
              inl (refl, frequencies.0, frequencies.1, inl (refl, seen)),
            )
        | inr off ↦ elim (Bool-cases (try_hsi48 t s1).0) [
          | inl on ↦
              let (frequencies, seen) = second.success on in
              rw (off, on)
                (
                  second.safe,
                  omega (arith, first.few, second.few),
                  inl (refl, frequencies.0, frequencies.1, inr (refl, seen)),
                )
          | inr none_on ↦
              let (apb, ahb) = first.failure off in
              let (apb2, ahb2) = second.failure none_on in
              rw (off, none_on)
                (
                  second.safe,
                  omega (arith, first.few, second.few),
                  inr (refl, refl, apb2 ∙ apb, ahb2 ∙ ahb),
                )
        ]
      ]
