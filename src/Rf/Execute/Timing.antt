-- ===== src/Rf/Execute/Timing.antt =====
-- How long an execution waits for the SPI peripherals, in polls of a status register and in
-- milliseconds of the clock.
use beamforming_software.Prelude.{
  ℕ, zero, suc, ◌+◌, ◌-◌, ◌^◌, ◌*◌, ◌≤◌, ◌<◌, ◌≡◌, inl, inr, refl, sym, subst, arith, Bool, true,
  false, Bool-cases, List, get_or, u8, u32, ltb,
}
use beamforming_software.Platform.SpiGuard.{
  Peripherals, SpiGuardStatus, elapsed, poll_iteration_limit, wait_for_status, wait_txe,
  wait_not_busy, then_not_busy, wait_complete,
}
use beamforming_software.Platform.SpiGuard.Bounds.{IsPending, wait_for_status-Ended}
use beamforming_software.Platform.DiagnosticRecord.{FirmwareFault, no_fault}
use beamforming_software.Rf.Commands.{phase_command_max}
use beamforming_software.Rf.Plan.{Operation, zero_operation, OperationType, phase, vga, Plan}
use beamforming_software.Rf.Drivers
use beamforming_software.Rf.Drivers.{
  Board, vga_write, phase_shifter_write, vga_start, vga_finish, phase_start, phase_finish,
}
use beamforming_software.Rf.Execute.{
  Outputs, unless_fault, after_vga, after_phase, execute_operation, execute_loop, execute_plan,
}

-- The counter shows the time in milliseconds, modulo 2 ^ 32, and from the poll `from` to the poll
-- `limit` there is one at least every millisecond.
pub record IsClock (p : Peripherals) (time : ℕ → ℕ) (from limit : ℕ) : Type 0 where
  pub shown : (n : ℕ) → p.millis n ≡ u32 (time n)
  pub forward : (n : ℕ) → time n ≤ time (n + 1)
  pub often : (n : ℕ) → from ≤ n → n < limit → time (n + 1) ≤ time n + 1

module _ (p : Peripherals) (time : ℕ → ℕ) (from limit : ℕ) (clock : IsClock p time from limit) where
  -- From the poll `a` to the poll `b` at most so many milliseconds and polls have passed.
  pub record Took (millis polls a b : ℕ) : Type 0 where
    pub later : a ≤ b
    pub few : b ≤ a + polls
    pub soon : time b ≤ time a + millis

  pub Took-none : (a : ℕ) → Took 0 0 a a
  Took-none a = record { later = omega arith; few = omega arith; soon = omega arith }

  pub Took-more : (m n m' n' a b : ℕ) → Took m n a b → m ≤ m' → n ≤ n' → Took m' n' a b
  Took-more m n m' n' a b t hm hn = record {
    later = t.later;
    few = omega (arith, t.few);
    soon = omega (arith, t.soon);
  }

  pub Took-then : (m n m' n' a b c : ℕ) → Took m n a b → Took m' n' b c → Took (m + m') (n + n') a c
  Took-then m n m' n' a b c t u = record {
    later = omega (arith, t.later, u.later);
    few = omega (arith, t.few, u.few);
    soon = omega (arith, t.soon, u.soon);
  }

  -- while a wait of two milliseconds is pending
  pending-soon :
      (start n : ℕ)
      → elapsed (p.millis n) (p.millis start) 2 ≡ false
      → time start ≤ time n
      → time n ≤ time start + 2
      → time n ≤ time start + 1
  pending-soon start n e lo hi =
      let now = clock.shown n in
      let begun = clock.shown start in
      let small : u32 (p.millis n + 2 ^ 32 - p.millis start) < 2 = ground arith in
      omega (arith, now, begun, small, lo, hi)

  -- A wait with a timeout of two milliseconds is over within three, whatever ends it.
  wait_soon :
      (spi mask : ℕ) (expected : Bool) (start last : ℕ)
      → ((n : ℕ) → start ≤ n → n < last → IsPending p spi mask expected (p.millis start) 2 n)
      → from ≤ start
      → last < limit
      → (k : ℕ) → start + k ≤ last
      → (time start ≤ time (start + k)) × (time (start + k) ≤ time start + 2)
  wait_soon spi mask expected start last pending hf hl zero h =
      let same : start + 0 ≡ start = omega arith in rw same (omega arith, omega arith)
  wait_soon spi mask expected start last pending hf hl (suc k) h =
      let (lo, hi) = wait_soon spi mask expected start last pending hf hl k (omega arith) in
      let before =
        pending-soon start (start + k) (pending (start + k) (omega arith) (omega arith)).in_time lo
          hi in
      let same : start + suc k ≡ start + k + 1 = omega arith in
      let up = clock.forward (start + k) in
      let slow = clock.often (start + k) (omega arith) (omega arith) in
      rw same (omega (arith, lo, up), omega (arith, before, slow))

  pub wait-Took :
      (spi mask : ℕ) (expected : Bool) (poll : ℕ)
      → from ≤ poll
      → poll + poll_iteration_limit ≤ limit
      → Took 3 poll_iteration_limit poll (wait_for_status p spi mask expected 2 poll).1
  wait-Took spi mask expected poll hf hl =
      let e = wait_for_status-Ended p spi mask expected 2 poll in
      let last = e.last in
      let (lo, hi) =
        wait_soon spi mask expected poll last e.before hf (omega (arith, e.within)) (last - poll)
          (omega (arith, e.from)) in
      let same : poll + (last - poll) ≡ last = omega (arith, e.from) in
      let lo' = subst (λ n. time poll ≤ time n) same lo in
      let hi' = subst (λ n. time n ≤ time poll + 2) same hi in
      let up = clock.forward last in
      let slow = clock.often last (omega (arith, e.from)) (omega (arith, e.within)) in
      subst (Took 3 poll_iteration_limit poll) (sym e.next) (record {
        later = omega (arith, e.from);
        few = omega (arith, e.within);
        soon = omega (arith, hi', slow);
      })

  -- one transfer, of three waits
  wait_complete-Took :
      (spi poll : ℕ)
      → from ≤ poll
      → poll + 2000000 ≤ limit
      → Took 6 2000000 poll (wait_complete p spi 2 poll).1
  unfolding wait_complete
  wait_complete-Took spi poll hf hl =
      go (wait_txe p spi 2 poll) (wait-Took spi p.txe_mask true poll hf (omega arith))
    where
      go :
          (w : SpiGuardStatus × ℕ)
          → Took 3 1000000 poll w.1
          → Took 6 2000000 poll (then_not_busy p spi 2 w).1
      go (SpiGuardStatus.ok, next) t =
          Took-then 3 1000000 3 1000000 poll next (wait_not_busy p spi 2 next).1 t
            (wait-Took spi p.bsy_mask false next (omega (arith, t.later)) (omega (arith, t.few)))
      go (failed, next) t = Took-more 3 1000000 6 2000000 poll next t (omega arith) (omega arith)

  vga_write-Took :
      (command : ℕ) (b : Board)
      → from ≤ b.polls
      → b.polls + 3000000 ≤ limit
      → Took 9 3000000 b.polls (vga_write p command 2 b).1.polls
  unfolding vga_write
  vga_write-Took command b hf hl =
      go (wait_txe p Drivers.spi1 2 b.polls)
        (wait-Took Drivers.spi1 p.txe_mask true b.polls hf (omega arith))
    where
      finished :
          (w : SpiGuardStatus × ℕ) (a : ℕ) (sent : Board)
          → Took 9 3000000 a w.1
          → Took 9 3000000 a (vga_finish p w sent).1.polls
      finished (SpiGuardStatus.ok, polls) a sent t = t
      finished (failed, polls) a sent t = t

      go :
          (w : SpiGuardStatus × ℕ)
          → Took 3 1000000 b.polls w.1
          → Took 9 3000000 b.polls (vga_start p w command 2 b).1.polls
      go (SpiGuardStatus.ok, next) t = finished (wait_complete p Drivers.spi1 2 next) b.polls _ (
          Took-then 3 1000000 6 2000000 b.polls next (wait_complete p Drivers.spi1 2 next).1 t
            (wait_complete-Took Drivers.spi1 next (omega (arith, t.later)) (omega (arith, t.few))))
      go (failed, next) t = Took-more 3 1000000 9 3000000 b.polls next t (omega arith) (omega arith)

  phase_shifter_write-Took :
      (command : ℕ) (b : Board)
      → from ≤ b.polls
      → b.polls + 3000000 ≤ limit
      → Took 9 3000000 b.polls (phase_shifter_write p command 2 b).1.polls
  unfolding phase_shifter_write
  phase_shifter_write-Took command b hf hl = elim (Bool-cases (ltb phase_command_max command)) [
    | inl large ↦
        rw large
          (Took-more 0 0 9 3000000 b.polls b.polls (Took-none b.polls) (omega arith) (omega arith))
    | inr fits ↦ rw fits (
        go (wait_txe p Drivers.spi2 2 b.polls)
          (wait-Took Drivers.spi2 p.txe_mask true b.polls hf (omega arith)))
  ]
    where
      finished :
          (w : SpiGuardStatus × ℕ) (a : ℕ) (sent : Board)
          → Took 9 3000000 a w.1
          → Took 9 3000000 a (phase_finish p w sent).1.polls
      finished (SpiGuardStatus.ok, polls) a sent t = t
      finished (failed, polls) a sent t = t

      go :
          (w : SpiGuardStatus × ℕ)
          → Took 3 1000000 b.polls w.1
          → Took 9 3000000 b.polls (phase_start p w command 2 b).1.polls
      go (SpiGuardStatus.ok, next) t = finished (wait_complete p Drivers.spi2 2 next) b.polls _ (
          Took-then 3 1000000 6 2000000 b.polls next (wait_complete p Drivers.spi2 2 next).1 t
            (wait_complete-Took Drivers.spi2 next (omega (arith, t.later)) (omega (arith, t.few))))
      go (failed, next) t = Took-more 3 1000000 9 3000000 b.polls next t (omega arith) (omega arith)

  after_vga-polls :
      (command : ℕ) (w : SpiGuardStatus × Board) (o : Outputs)
      → (after_vga p 2 command w o).1.board ≡ w.1
  after_vga-polls command (SpiGuardStatus.ok, b) o = refl
  after_vga-polls command (failed, b) o = refl

  after_phase-polls :
      (command : ℕ) (w : SpiGuardStatus × Board) (o : Outputs)
      → (after_phase p 2 command w o).1.board ≡ w.1
  after_phase-polls command (SpiGuardStatus.ok, b) o = refl
  after_phase-polls command (failed, b) o = refl

  operation-Took :
      (t : OperationType) (n : ℕ) (o : Outputs)
      → from ≤ o.board.polls
      → o.board.polls + 3000000 ≤ limit
      → Took 9 3000000 o.board.polls
          (execute_operation p 2 (record { type = t; command = n }) o).1.board.polls
  unfolding execute_operation
  operation-Took vga n o hf hl =
      subst (λ (b : Board). Took 9 3000000 o.board.polls b.polls)
        (sym (after_vga-polls (u8 n) (vga_write p (u8 n) 2 o.board) o))
        (vga_write-Took (u8 n) o.board hf hl)
  operation-Took phase n o hf hl =
      subst (λ (b : Board). Took 9 3000000 o.board.polls b.polls)
        (sym (after_phase-polls n (phase_shifter_write p n 2 o.board) o))
        (phase_shifter_write-Took n o.board hf hl)

  step-Took :
      (x : FirmwareFault × Outputs) (next : Outputs → FirmwareFault × Outputs) (a k : ℕ)
      → from ≤ a
      → a + suc k * 3000000 ≤ limit
      → Took 9 3000000 a x.1.board.polls
      → ((o : Outputs)
          → from ≤ o.board.polls
          → o.board.polls + k * 3000000 ≤ limit
          → Took (k * 9) (k * 3000000) o.board.polls (next o).1.board.polls)
      → Took (suc k * 9) (suc k * 3000000) a (unless_fault x next).1.board.polls
  step-Took (no_fault, o) next a k hf hl t h =
      Took-more (9 + k * 9) (3000000 + k * 3000000) (suc k * 9) (suc k * 3000000) a _
        (Took-then 9 3000000 (k * 9) (k * 3000000) a o.board.polls (next o).1.board.polls t
          (h o (omega (arith, t.later)) (omega (arith, t.few))))
        (omega arith) (omega arith)
  step-Took (fault, o) next a k hf hl t h =
      Took-more 9 3000000 (suc k * 9) (suc k * 3000000) a o.board.polls t (omega arith)
        (omega arith)

  loop-Took :
      (ops : List Operation) (rounds i : ℕ) (o : Outputs)
      → from ≤ o.board.polls
      → o.board.polls + rounds * 3000000 ≤ limit
      → Took
          (rounds * 9)
          (rounds * 3000000)
          o.board.polls
          (execute_loop p 2 ops rounds i o).1.board.polls
  unfolding execute_loop
  loop-Took ops zero i o hf hl = Took-none o.board.polls
  loop-Took ops (suc rounds) i o hf hl =
      let op = get_or ops i zero_operation in
      step-Took (execute_operation p 2 op o) (λ after. execute_loop p 2 ops rounds (i + 1) after)
        o.board.polls rounds hf hl (operation-Took op.type op.command o hf (omega arith))
        (λ after hf' hl'. loop-Took ops rounds (i + 1) after hf' hl')

  -- The execution of a plan waits at most nine milliseconds for each operation, faults included.
  pub execute_plan-Took :
      (plan : Plan) (o : Outputs)
      → from ≤ o.board.polls
      → o.board.polls + plan.operation_count * 3000000 ≤ limit
      → Took
          (plan.operation_count * 9)
          (plan.operation_count * 3000000)
          o.board.polls
          (execute_plan p 2 plan o).1.board.polls
  unfolding execute_plan
  execute_plan-Took plan o hf hl = loop-Took plan.operations plan.operation_count 0 o hf hl
