-- ===== src/Rf/Plan.antt =====
-- stm32/app/src/rf/plan.c: which writes to the two devices a command takes, in which order. A plan
-- is written through a pointer, so each function takes it and returns it; the pointers are never
-- NULL. `operation_count` does not wrap: it is at most three.
pub mod Safety
pub mod Startup
use beamforming_software.Prelude.{
  ℕ, ◌+◌, Bool, true, false, List, none, some, leb, ltb, ◌==◌, not, if◌then◌else◌, set, replicate,
}
use beamforming_software.Can.Protocol.{
  MessageType, enter_safe, set_combined, set_phase, set_vga, ping, Command, CommandResult,
  vga_max_attenuation_db,
}
use beamforming_software.Rf.Commands.{
  phase_unit_address, get_optimized_phase_state, make_ps_command, make_vga_command,
}

abbrev pub max_operations : ℕ
max_operations = 3

-- `rf_operation_type_t`
pub data OperationType : Type 0 where
  phase vga : OperationType

-- `rf_operation_t`
pub record Operation : Type 0 where
  pub type : OperationType
  pub command : ℕ

-- `rf_state_t`
pub record RfState : Type 0 where
  pub phase_state : ℕ
  pub attenuation_db : ℕ

-- `rf_plan_t`
pub record Plan : Type 0 where
  pub operations : List Operation
  pub operation_count : ℕ
  pub resulting_state : RfState

abbrev pub zero_state : RfState
zero_state = record { phase_state = 0; attenuation_db = 0 }

abbrev pub zero_operation : Operation
zero_operation = record { type = phase; command = 0 }

abbrev pub zero_plan : Plan
zero_plan = record {
  operations = replicate max_operations zero_operation;
  operation_count = 0;
  resulting_state = zero_state;
}

unfoldable pub append_operation : Plan → OperationType → ℕ → CommandResult × Plan
append_operation plan type command =
    if leb max_operations plan.operation_count then (CommandResult.busy, plan) else (
      CommandResult.ok,
      record plan {
        operations =
            set plan.operations plan.operation_count (record { type = type; command = command });
        operation_count = plan.operation_count + 1;
      },
    )

-- `resulting_state` is updated only if the operation was appended.
keep_phase : ℕ → CommandResult × Plan → CommandResult × Plan
keep_phase phase_state (CommandResult.ok, plan) = (
  CommandResult.ok,
  record plan { resulting_state = record (plan.resulting_state) { phase_state = phase_state } },
)
keep_phase phase_state (result, plan) = (result, plan)

keep_vga : ℕ → CommandResult × Plan → CommandResult × Plan
keep_vga attenuation_db (CommandResult.ok, plan) = (
  CommandResult.ok,
  record plan {
    resulting_state = record (plan.resulting_state) { attenuation_db = attenuation_db };
  },
)
keep_vga attenuation_db (result, plan) = (result, plan)

unfoldable pub append_phase : ℕ → Plan → CommandResult × Plan
unfolding append_operation keep_phase
append_phase phase_state plan =
    let command = make_ps_command (get_optimized_phase_state phase_state) phase_unit_address in
    keep_phase phase_state (append_operation plan phase command)

unfoldable pub append_vga : ℕ → Plan → CommandResult × Plan
unfolding append_operation keep_vga
append_vga attenuation_db plan = elim (make_vga_command attenuation_db) [
  | none ↦ (CommandResult.invalid_payload, plan)
  | some command ↦ keep_vga attenuation_db (append_operation plan vga command)
]

-- `if (result != OK) return result;`
infixl 5 ◌then_plan◌
abbrev pub ◌then_plan◌ : CommandResult × Plan → (Plan → CommandResult × Plan) → CommandResult × Plan
◌then_plan◌ (CommandResult.ok, plan) next = next plan
◌then_plan◌ (result, plan) next = (result, plan)

unfoldable pub plan_phase_safely : ℕ → RfState → Plan → CommandResult × Plan
unfolding append_phase append_vga
plan_phase_safely phase_state current_state plan =
    let restore_attenuation = not (current_state.attenuation_db == vga_max_attenuation_db) in
    (if restore_attenuation
      then append_vga vga_max_attenuation_db plan
      else (CommandResult.ok, plan))
    then_plan append_phase phase_state
    then_plan λ planned.
        if restore_attenuation
        then append_vga current_state.attenuation_db planned
        else (CommandResult.ok, planned)

unfoldable pub plan_combined : ℕ → ℕ → Plan → CommandResult × Plan
unfolding append_phase append_vga
plan_combined phase_state attenuation_db plan =
    append_vga vga_max_attenuation_db plan then_plan append_phase phase_state then_plan λ planned.
    if attenuation_db == vga_max_attenuation_db
    then (CommandResult.ok, planned)
    else append_vga attenuation_db planned

-- whether a step returned OK
abbrev pub succeeded : CommandResult → Bool
succeeded CommandResult.ok = true
succeeded _ = false

-- `rf_plan_startup`: `&&` runs the second step only after the first.
unfoldable pub plan_startup : ℕ → ℕ → Plan → Bool × Plan
unfolding append_phase append_vga
plan_startup phase_state attenuation_db plan =
    if ltb vga_max_attenuation_db attenuation_db
    then (false, plan)
    else (let (result, planned) =
          append_vga attenuation_db zero_plan then_plan append_phase phase_state in
        (succeeded result, planned))

-- `rf_plan_command`
unfoldable pub plan_command : Command → RfState → Plan → CommandResult × Plan
unfolding plan_phase_safely plan_combined append_phase append_vga
plan_command command current_state plan =
    let fresh : Plan = record zero_plan { resulting_state = current_state } in
    elim command.type [
      | set_phase ↦ plan_phase_safely command.phase_state current_state fresh
      | set_vga ↦ append_vga command.attenuation_db fresh
      | set_combined ↦ plan_combined command.phase_state command.attenuation_db fresh
      | enter_safe ↦ append_vga vga_max_attenuation_db fresh then_plan append_phase 0
      | ping ↦ (CommandResult.ok, fresh)
      | _ ↦ (CommandResult.unsupported, fresh)
    ]
