-- ===== src/Platform/SpiGuard/Bounds.antt =====
-- What a bounded wait tells of the register.
use beamforming_software.Prelude.{
  ℕ, zero, suc, ◌+◌, ◌≤◌, ◌<◌, ◌≡◌, ◌⊎◌, inl, inr, refl, arith, Bool, true, false, Bool-cases,
  ℕ_discrete,
}
use beamforming_software.Platform.SpiGuard.{
  Peripherals, SpiGuardStatus, ok, timeout, error, poll_iteration_limit, elapsed, has_error, is_set,
  same_level, wait_loop, wait_for_status,
}

module _ (p : Peripherals) (spi mask : ℕ) (expected : Bool) (start timeout_millis : ℕ) where
  -- Neither an error, nor the awaited level, nor the end of the time.
  pub record IsPending (poll : ℕ) : Type 0 where
    pub no_error : has_error p spi poll ≡ false
    pub other_level : same_level p (is_set p spi mask poll) expected ≡ false
    pub in_time : elapsed (p.millis poll) start timeout_millis ≡ false

  -- Why the wait ended at the poll `last`, `limit` being one past the last poll that is allowed.
  abbrev pub Reason : SpiGuardStatus → ℕ → ℕ → Type 0
  Reason ok last limit =
      (has_error p spi last ≡ false) × (same_level p (is_set p spi mask last) expected ≡ true)
  Reason error last limit = has_error p spi last ≡ true
  Reason timeout last limit =
      (has_error p spi last ≡ false)
      × (same_level p (is_set p spi mask last) expected ≡ false)
      × ((elapsed (p.millis last) start timeout_millis ≡ true) ⊎ (last + 1 ≡ limit))
  Reason _ last limit = ⊥

  -- The wait polled from `poll` to `last`, which ended it, and all before were pending.
  pub record Ended (result : SpiGuardStatus × ℕ) (poll limit : ℕ) : Type 0 where
    pub last : ℕ
    pub next : result.1 ≡ last + 1
    pub from : poll ≤ last
    pub within : last < limit
    pub reason : Reason result.0 last limit
    pub before : (n : ℕ) → poll ≤ n → n < last → IsPending n

  loop_step :
      (remaining poll : ℕ)
      → (wait_loop p spi mask expected start timeout_millis (suc remaining) poll
            ≡ wait_loop p spi mask expected start timeout_millis remaining (poll + 1)
          × IsPending poll)
        ⊎ ((result : SpiGuardStatus) × (wait_loop p spi mask expected start timeout_millis
                (suc remaining)
                poll
              ≡ (result, poll + 1))
            × ((limit : ℕ) → Reason result poll limit))
  unfolding wait_loop
  loop_step remaining poll = elim (Bool-cases (has_error p spi poll)) [
    | inl e ↦ inr (error, ground arith, λ limit. e)
    | inr e ↦ elim (Bool-cases (same_level p (is_set p spi mask poll) expected)) [
      | inl s ↦ inr (ok, ground arith, λ limit. (e, s))
      | inr s ↦ elim (Bool-cases (elapsed (p.millis poll) start timeout_millis)) [
        | inl t ↦ inr (timeout, ground arith, λ limit. (e, s, inl t))
        | inr t ↦ inl (ground arith, record { no_error = e; other_level = s; in_time = t })
      ]
    ]
  ]

  decided :
      (result : SpiGuardStatus) (remaining poll : ℕ)
      → ((limit : ℕ) → Reason result poll limit)
      → Ended (result, poll + 1) poll (poll + suc remaining)
  decided result remaining poll r = record {
    last = poll;
    next = refl;
    from = omega arith;
    within = omega arith;
    reason = r _;
    before = λ n lo hi. absurd (omega arith);
  }

  wait_loop-Ended :
      (remaining poll : ℕ)
      → Ended
          (wait_loop p spi mask expected start timeout_millis (suc remaining) poll)
          poll
          (poll + suc remaining)
  unfolding wait_loop
  wait_loop-Ended zero poll = elim (loop_step 0 poll) [
    | inr (result, e, r) ↦ rw e (decided result 0 poll r)
    | inl (e, h) ↦ rw e (record {
      last = poll;
      next = refl;
      from = omega arith;
      within = omega arith;
      reason = (h.no_error, h.other_level, inr refl);
      before = λ n lo hi. absurd (omega arith);
    })
  ]
  wait_loop-Ended (suc remaining) poll = elim (loop_step (suc remaining) poll) [
    | inr (result, e, r) ↦ rw e (decided result (suc remaining) poll r)
    | inl (e, h) ↦
        let g = wait_loop-Ended remaining (poll + 1) in
        let same : poll + 1 + suc remaining ≡ poll + suc (suc remaining) = omega arith in
        rw (e, ← same)
          (record {
            last = g.last;
            next = g.next;
            from = omega (arith, g.from);
            within = g.within;
            reason = g.reason;
            before = λ n lo hi. elim (ℕ_discrete n poll) [
              | yes here ↦ rw here h
              | no later ↦ g.before n (omega arith) hi
            ];
          })
  ]

-- A wait always ends, within a million polls. It ends at the first poll that shows an error, the
-- awaited level without an error, or the end of the time without either, and answers with that;
-- if a million polls show nothing of these, it answers timeout at the last.
pub wait_for_status-Ended :
    (p : Peripherals) (spi mask : ℕ) (expected : Bool) (timeout_millis poll : ℕ)
    → Ended p spi mask expected
        (p.millis poll)
        timeout_millis
        (wait_for_status p spi mask expected timeout_millis poll)
        poll
        (poll + poll_iteration_limit)
unfolding wait_for_status
wait_for_status-Ended p spi mask expected timeout_millis poll =
    wait_loop-Ended p spi mask expected (p.millis poll) timeout_millis 999999 poll
