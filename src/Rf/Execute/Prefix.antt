-- ===== src/Rf/Execute/Prefix.antt =====
-- What an execution leaves on the board and in the recorded commands, fault or not.
use beamforming_software.Prelude.{
  ℕ, zero, suc, ◌+◌, ◌≤◌, ◌≡◌, ◌≢◌, ◌⊎◌, inl, inr, refl, ap, append-nil, sym, ◌∙◌, subst, arith,
  Bool-cases, List, [], ◌∷◌, ◌++◌, length, take, get_or, u8, ltb,
}
use beamforming_software.Platform.SpiGuard.{Peripherals, SpiGuardStatus, wait_txe, wait_complete}
use beamforming_software.Platform.DiagnosticRecord.{FirmwareFault, no_fault}
use beamforming_software.Rf.Commands.{phase_command_max}
use beamforming_software.Rf.Plan.{Operation, zero_operation, phase, vga, Plan, OperationType}
use beamforming_software.Rf.Drivers
use beamforming_software.Rf.Drivers.{
  Board, Event, cs_low, cs_high, le_low, le_high, margin, vga_data, phase_data, emit, vga_write,
  phase_shifter_write, vga_finish, phase_finish, vga_start, phase_start,
}
use beamforming_software.Rf.Execute.{
  Outputs, after_vga, after_phase, execute_operation, execute_loop, execute_plan, unless_fault,
}

-- What shows of an execution: the recorded commands and the trace.
pub record Seen : Type 0 where
  pub phase_word : ℕ
  pub vga_byte : ℕ
  pub trace : List Event

abbrev pub seen : Outputs → Seen
seen o = record {
  phase_word = o.last_phase_command;
  vga_byte = o.last_vga_command;
  trace = o.board.trace;
}

-- A transfer up to the data, which no latching edge follows.
abbrev pub begun : Seen → Operation → Seen
begun s op = elim op.type [
  | vga ↦ record s { trace = vga_data (u8 op.command) ∷ margin ∷ cs_low ∷ s.trace }
  | phase ↦ record s { trace = phase_data op.command ∷ margin ∷ le_low ∷ s.trace }
]

-- A whole write: the transfer, the latching edge, and the record of it.
abbrev pub complete : Seen → Operation → Seen
complete s op = elim op.type [
  | vga ↦ record {
    phase_word = s.phase_word;
    vga_byte = u8 op.command;
    trace = margin ∷ cs_high ∷ margin ∷ vga_data (u8 op.command) ∷ margin ∷ cs_low ∷ s.trace;
  }
  | phase ↦ record {
    phase_word = op.command;
    vga_byte = s.vga_byte;
    trace = margin ∷ le_high ∷ margin ∷ phase_data op.command ∷ margin ∷ le_low ∷ s.trace;
  }
]

abbrev pub completes : Seen → List Operation → Seen
completes s [] = s
completes s (op ∷ ops) = completes (complete s op) ops

-- One operation: whole and without a fault, or with a fault and at most begun.
abbrev pub Outcome : Operation → Seen → FirmwareFault × Outputs → Type 0
Outcome op s x =
    ((x.0 ≡ no_fault) × (seen x.1 ≡ complete s op))
    ⊎ ((x.0 ≢ no_fault) × ((seen x.1 ≡ s) ⊎ (seen x.1 ≡ begun s op)))

module _ (p : Peripherals) (time command : ℕ) (o : Outputs) where
  vga_operation : Operation
  vga_operation = record { type = vga; command = command }

  phase_operation : Operation
  phase_operation = record { type = phase; command = command }

  sent_vga : ℕ → Board
  sent_vga polls =
      emit (vga_data (u8 command)) (emit margin (emit cs_low (record (o.board) { polls = polls })))

  sent_phase : ℕ → Board
  sent_phase polls =
      emit (phase_data command) (emit margin (emit le_low (record (o.board) { polls = polls })))

  vga_finish-Outcome :
      (w : SpiGuardStatus × ℕ) (polls : ℕ)
      → Outcome vga_operation
          (seen o)
          (after_vga p time (u8 command) (vga_finish p w (sent_vga polls)) o)
  unfolding vga_operation sent_vga
  vga_finish-Outcome (SpiGuardStatus.ok, n) polls = inl (refl, refl)
  vga_finish-Outcome (SpiGuardStatus.timeout, n) polls = inr ((λ e. cc), inr refl)
  vga_finish-Outcome (_, n) polls = inr ((λ e. cc), inr refl)

  vga_start-Outcome :
      (w : SpiGuardStatus × ℕ)
      → Outcome vga_operation
          (seen o)
          (after_vga p time (u8 command) (vga_start p w (u8 command) time o.board) o)
  unfolding vga_operation sent_vga
  vga_start-Outcome (SpiGuardStatus.ok, n) =
      vga_finish-Outcome (wait_complete p Drivers.spi1 time n) n
  vga_start-Outcome (SpiGuardStatus.timeout, n) = inr ((λ e. cc), inl refl)
  vga_start-Outcome (_, n) = inr ((λ e. cc), inl refl)

  phase_finish-Outcome :
      (w : SpiGuardStatus × ℕ) (polls : ℕ)
      → Outcome phase_operation
          (seen o)
          (after_phase p time command (phase_finish p w (sent_phase polls)) o)
  unfolding phase_operation sent_phase
  phase_finish-Outcome (SpiGuardStatus.ok, n) polls = inl (refl, refl)
  phase_finish-Outcome (SpiGuardStatus.timeout, n) polls = inr ((λ e. cc), inr refl)
  phase_finish-Outcome (_, n) polls = inr ((λ e. cc), inr refl)

  phase_start-Outcome :
      (w : SpiGuardStatus × ℕ)
      → Outcome phase_operation
          (seen o)
          (after_phase p time command (phase_start p w command time o.board) o)
  unfolding phase_operation sent_phase
  phase_start-Outcome (SpiGuardStatus.ok, n) =
      phase_finish-Outcome (wait_complete p Drivers.spi2 time n) n
  phase_start-Outcome (SpiGuardStatus.timeout, n) = inr ((λ e. cc), inl refl)
  phase_start-Outcome (_, n) = inr ((λ e. cc), inl refl)

pub execute_operation-Outcome :
    (p : Peripherals) (time : ℕ) (type : OperationType) (command : ℕ) (o : Outputs)
    → let op : Operation = record { type = type; command = command } in
      Outcome op (seen o) (execute_operation p time op o)
unfolding execute_operation vga_write phase_shifter_write vga_operation phase_operation
execute_operation-Outcome p time vga command o =
    vga_start-Outcome p time command o (wait_txe p Drivers.spi1 time o.board.polls)
execute_operation-Outcome p time phase command o =
    elim (Bool-cases (ltb phase_command_max command)) [
      | inl large ↦ rw large (inr ((λ e. cc), inl refl))
      | inr fits ↦
          rw fits
            (phase_start-Outcome p time command o (wait_txe p Drivers.spi2 time o.board.polls))
    ]

-- An execution of a list: whole, or up to an operation that failed.
unfoldable pub Ran : List Operation → Seen → FirmwareFault × Outputs → Type 0
Ran ops s x =
    (done rest : List Operation) × (ops ≡ done ++ rest)
    × (((x.0 ≡ no_fault) × (rest ≡ []) × (seen x.1 ≡ completes s done))
        ⊎ ((x.0 ≢ no_fault)
            × (op : Operation) × (more : List Operation) × (rest ≡ op ∷ more)
            × ((seen x.1 ≡ completes s done) ⊎ (seen x.1 ≡ begun (completes s done) op))))

-- Without a fault it is whole.
pub Ran-whole :
    (ops : List Operation) (s : Seen) (x : FirmwareFault × Outputs)
    → Ran ops s x
    → x.0 ≡ no_fault
    → seen x.1 ≡ completes s ops
unfolding Ran
Ran-whole ops s x (done, rest, parts, inl (ok, none_left, out)) good =
    out ∙ ap (completes s) (sym (parts ∙ (ap (λ more. done ++ more) none_left ∙ append-nil done)))
Ran-whole ops s x (done, rest, parts, inr (bad, op, more, failed, out)) good = absurd (bad good)

-- the `n` operations from `i` on
abbrev slice : List Operation → ℕ → ℕ → List Operation
slice ops i zero = []
slice ops i (suc n) = get_or ops i zero_operation ∷ slice ops (i + 1) n

slice-cons :
    (x : Operation) (xs : List Operation) (i n : ℕ) → slice (x ∷ xs) (suc i) n ≡ slice xs i n
slice-cons x xs i zero = refl
slice-cons x xs i (suc n) =
    let next : suc i + 1 ≡ suc (i + 1) = omega arith in
    rw next (ap (λ ys. get_or xs i zero_operation ∷ ys) (slice-cons x xs (i + 1) n))

slice-take : (xs : List Operation) (n : ℕ) → n ≤ length xs → slice xs 0 n ≡ take n xs
slice-take xs zero h = refl
slice-take [] (suc n) h = absurd (omega arith)
slice-take (x ∷ xs) (suc n) h =
    ap (λ ys. x ∷ ys) (slice-cons x xs 0 n ∙ slice-take xs n (omega arith))

Ran-cons :
    (op : Operation) (ops : List Operation) (s : Seen) (x : FirmwareFault × Outputs)
    → Ran ops (complete s op) x
    → Ran (op ∷ ops) s x
unfolding Ran
Ran-cons op ops s x (done, rest, e, r) = (op ∷ done, rest, ap (λ ys. op ∷ ys) e, r)

Ran-step :
    (op : Operation) (ops : List Operation) (s : Seen) (x : FirmwareFault × Outputs)
    (next : Outputs → FirmwareFault × Outputs)
    → Outcome op s x
    → ((o : Outputs) → Ran ops (seen o) (next o))
    → Ran (op ∷ ops) s (unless_fault x next)
unfolding Ran
Ran-step op ops s (no_fault, o) next (inl (e, w)) h =
    Ran-cons op ops s (next o) (subst (λ t. Ran ops t (next o)) w (h o))
Ran-step op ops s (no_fault, o) next (inr (ne, w)) h = absurd (ne refl)
Ran-step op ops s (fault, o) next (inl (e, w)) h = cc
Ran-step op ops s (fault, o) next (inr (ne, w)) h = ([], op ∷ ops, refl, inr (ne, op, ops, refl, w))

execute_loop-Ran :
    (p : Peripherals) (time : ℕ) (ops : List Operation) (rounds i : ℕ) (o : Outputs)
    → Ran (slice ops i rounds) (seen o) (execute_loop p time ops rounds i o)
unfolding execute_loop Ran
execute_loop-Ran p time ops zero i o = ([], [], refl, inl (refl, refl, refl))
execute_loop-Ran p time ops (suc rounds) i o =
    let op = get_or ops i zero_operation in
    Ran-step op (slice ops (i + 1) rounds) (seen o) (execute_operation p time op o)
      (λ after. execute_loop p time ops rounds (i + 1) after)
      (execute_operation-Outcome p time op.type op.command o)
      (λ after. execute_loop-Ran p time ops rounds (i + 1) after)

-- A plan whose count is at most the length of its array is executed in order. Without a fault, the
-- trace and the recorded commands are those of every operation of the plan, whole. With a fault,
-- they are those of the operations before the one that failed, which is at most begun: its
-- transfer may have started, but no latching edge followed, and it is not recorded.
pub execute_plan-Ran :
    (p : Peripherals) (time : ℕ) (plan : Plan) (o : Outputs)
    → plan.operation_count ≤ length plan.operations
    → Ran (take plan.operation_count plan.operations) (seen o) (execute_plan p time plan o)
unfolding execute_plan
execute_plan-Ran p time plan o h =
    subst (λ ops. Ran ops (seen o) (execute_plan p time plan o))
      (slice-take plan.operations plan.operation_count h)
      (execute_loop-Ran p time plan.operations plan.operation_count 0 o)
