-- ===== src/Platform/Clock/Switch.antt =====
-- The clock is switched only to a source that was seen ready, with the flash set up for it, and the
-- set-up ends within its bounds.
use beamforming_software.Prelude.{
  ℕ, zero, suc, ◌+◌, ◌≤◌, ◌≡◌, ◌⊎◌, inl, inr, refl, ◌∙◌, arith, true, Bool-cases, List, [], ◌∷◌,
  length, ◌==◌, ==_iff, bit_and,
}
use beamforming_software.Platform.Clock.{
  Oscillator, hse, pll, hsi48_osc, Register, cr, cr2, ClockEvent, osc_on, sysclk, wait_states,
  pll_mul3, pll_source_hse, polled, ClockTree, ClockState, does, poll, poll_loop,
}

abbrev pub Happened : ClockEvent → List ClockEvent → Type 0
Happened e [] = ⊥
Happened e (x ∷ xs) = (x ≡ e) ⊎ Happened e xs

module _ (t : ClockTree) where
  -- where a source shows that it is ready
  abbrev pub ready_register : Oscillator → Register
  ready_register hsi48_osc = cr2
  ready_register _ = cr

  abbrev pub ready_mask : Oscillator → ℕ
  ready_mask hse = t.cr_hserdy
  ready_mask pll = t.cr_pllrdy
  ready_mask hsi48_osc = t.cr2_hsi48rdy

  -- a read that shows the bits of a mask at a value
  abbrev pub Seen : Register → ℕ → ℕ → List ClockEvent → Type 0
  Seen reg mask expected es =
      (value : ℕ) × Happened (polled reg value) es × (bit_and value mask ≡ expected)

  abbrev pub SeenReady : Oscillator → List ClockEvent → Type 0
  SeenReady o es = Seen (ready_register o) (ready_mask o) (ready_mask o) es

  -- The PLL is turned on only with its factor and source set and the crystal seen ready, and the
  -- clock is switched only with the flash's wait states set and its source seen ready.
  abbrev pub IsSafeSwitch : List ClockEvent → Type 0
  IsSafeSwitch [] = Unit {0}
  IsSafeSwitch (osc_on pll ∷ es) =
      Happened pll_mul3 es × Happened pll_source_hse es × SeenReady hse es × IsSafeSwitch es
  IsSafeSwitch (sysclk o ∷ es) = Happened wait_states es × SeenReady o es × IsSafeSwitch es
  IsSafeSwitch (_ ∷ es) = IsSafeSwitch es

  -- at most `n` accesses, none of which is unsafe or publishes a frequency
  pub record IsProgress (n : ℕ) (s s' : ClockState) : Type 0 where
    pub safe : IsSafeSwitch s'.trace
    pub kept : (e : ClockEvent) → Happened e s.trace → Happened e s'.trace
    pub same_apb : s'.apb1_frequency ≡ s.apb1_frequency
    pub same_ahb : s'.ahb_frequency ≡ s.ahb_frequency
    pub few : length s'.trace ≤ length s.trace + n

  pub IsProgress-trans :
      (m n k : ℕ) (s s' s'' : ClockState)
      → m + n ≤ k
      → IsProgress m s s'
      → IsProgress n s' s''
      → IsProgress k s s''
  IsProgress-trans m n k s s' s'' h a b = record {
    safe = b.safe;
    kept = λ e h. b.kept e (a.kept e h);
    same_apb = b.same_apb ∙ a.same_apb;
    same_ahb = b.same_ahb ∙ a.same_ahb;
    few = omega (arith, a.few, b.few);
  }

  pub does-IsProgress :
      (e : ClockEvent) (s : ClockState) → IsSafeSwitch (e ∷ s.trace) → IsProgress 1 s (does e s)
  does-IsProgress e s h = record {
    safe = h;
    kept = λ x k. inr k;
    same_apb = refl;
    same_ahb = refl;
    few = omega arith;
  }

  pub poll_loop-IsProgress :
      (n : ℕ) (reg : Register) (mask expected : ℕ) (s : ClockState)
      → IsSafeSwitch s.trace
      → let (ok, s') = poll_loop t n reg mask expected s in
        IsProgress n s s' × (ok ≡ true → Seen reg mask expected s'.trace)
  unfolding poll_loop
  poll_loop-IsProgress zero reg mask expected s h = (
    record { safe = h; kept = λ e k. k; same_apb = refl; same_ahb = refl; few = omega arith },
    λ e. cc,
  )
  poll_loop-IsProgress (suc n) reg mask expected s h =
      let first = does-IsProgress (polled reg (t.reads reg s.trace)) s h in
      elim (Bool-cases (bit_and (t.reads reg s.trace) mask == expected)) [
        | inl found ↦ rw found (
          record {
            safe = first.safe;
            kept = first.kept;
            same_apb = refl;
            same_ahb = refl;
            few = omega arith;
          },
          λ e. (t.reads reg s.trace, inl refl, (==_iff _ _).0 found),
        )
        | inr more ↦
            let (rest, seen) = poll_loop-IsProgress n reg mask expected (poll t reg s) h in
            rw more (IsProgress-trans 1 n (suc n) s (poll t reg s) _ (omega arith) first rest, seen)
      ]
