-- ===== src/Rf/Plan/Safety.antt =====
-- A plan against the two devices that it is written to: the phase word changes only at the greatest
-- attenuation, and after the last write the devices hold the plan's resulting state.
use beamforming_software.Prelude.{
  ℕ, ◌*◌, ◌≤◌, ◌<◌, ◌≡◌, refl, sym, subst, subst₂, arith, List, [], ◌∷◌, some, take, ◌==◌,
  if◌then◌else◌, inl, inr, ◌⊎◌, Bool-cases, ==_iff,
}
use beamforming_software.Can.Protocol.{
  MessageType, enter_safe, set_combined, set_phase, set_vga, type_value, Command, CommandResult,
  vga_max_attenuation_db,
}
use beamforming_software.Rf.Commands.{
  phase_unit_address, get_optimized_phase_state, make_ps_command, make_vga_command,
}
use beamforming_software.Rf.Plan.{
  phase, vga, Operation, RfState, Plan, plan_command, max_operations,
}

-- What the two devices hold: the word of the phase shifter and the byte of the attenuator.
pub record Devices : Type 0 where
  pub phase_word : ℕ
  pub vga_byte : ℕ

-- the word that a phase state is sent as
abbrev pub phase_word_of : ℕ → ℕ
phase_word_of state = make_ps_command (get_optimized_phase_state state) phase_unit_address

abbrev pub write : Devices → Operation → Devices
write d o = elim o.type [
  | phase ↦ record d { phase_word = o.command }
  | vga ↦ record d { vga_byte = o.command }
]

abbrev pub writes : Devices → List Operation → Devices
writes d [] = d
writes d (o ∷ os) = writes (write d o) os

-- Every phase write finds the attenuator at its greatest value.
abbrev pub IsQuiet : Devices → List Operation → Type 0
IsQuiet d [] = Unit {0}
IsQuiet d (o ∷ os) =
    (o.type ≡ phase → d.vga_byte ≡ vga_max_attenuation_db * 4) × IsQuiet (write d o) os

-- The devices hold a state.
pub record Shows (d : Devices) (s : RfState) : Type 0 where
  pub phase_shown : d.phase_word ≡ phase_word_of s.phase_state
  pub vga_shown : d.vga_byte ≡ s.attenuation_db * 4

-- the operations that a plan has executed
abbrev pub planned : Plan → List Operation
planned plan = take plan.operation_count plan.operations

-- The state that a command asks for, by its type, phase state and attenuation.
abbrev pub requested_state : MessageType → ℕ → ℕ → RfState → RfState
requested_state enter_safe p a s = record {
  phase_state = 0;
  attenuation_db = vga_max_attenuation_db;
}
requested_state set_combined p a s = record { phase_state = p; attenuation_db = a }
requested_state set_phase p a s = record s { phase_state = p }
requested_state set_vga p a s = record s { attenuation_db = a }
requested_state _ p a s = s

abbrev pub requested : Command → RfState → RfState
requested c s = requested_state c.type c.phase_state c.attenuation_db s

abbrev phase_operation : ℕ → Operation
phase_operation state = record { type = phase; command = phase_word_of state }

abbrev vga_operation : ℕ → Operation
vga_operation db = record { type = vga; command = db * 4 }

make_vga_command-le : (a : ℕ) → a ≤ 23 → make_vga_command a ≡ some (a * 4)
unfolding make_vga_command
make_vga_command-le a h = ground arith

-- The operations that a command takes, as the protocol document lists them.
abbrev pub document_operations : MessageType → ℕ → ℕ → ℕ → List Operation
document_operations enter_safe p a now = vga_operation 23 ∷ phase_operation 0 ∷ []
document_operations set_combined p a now =
    vga_operation 23 ∷ phase_operation p ∷ (if a == 23 then [] else vga_operation a ∷ [])
document_operations set_phase p a now =
    if now == 23
    then phase_operation p ∷ []
    else vga_operation 23 ∷ phase_operation p ∷ vga_operation now ∷ []
document_operations set_vga p a now = vga_operation a ∷ []
document_operations _ p a now = []

abbrev pub document_plan : Command → RfState → List Operation
document_plan c s = document_operations c.type c.phase_state c.attenuation_db s.attenuation_db

pub plan_command_document :
    (c : Command) (s : RfState) (plan0 : Plan)
    → c.attenuation_db ≤ 23
    → s.attenuation_db ≤ 23
    → type_value c.type ≤ 4
    → let (result, plan) = plan_command c s plan0 in
      (result ≡ CommandResult.ok)
      × (planned plan ≡ document_plan c s)
      × (plan.operation_count ≤ max_operations)
      × (plan.resulting_state ≡ requested c s)
unfolding plan_command
plan_command_document c s plan0 hc hs ht = ground (
  arith,
  make_vga_command-le 23,
  make_vga_command-le c.attenuation_db,
  make_vga_command-le s.attenuation_db,
)

-- A full sequence needs nothing of the devices that it starts from.
combined-IsQuiet :
    (p a : ℕ) (s : RfState) (d : Devices)
    → IsQuiet d (document_operations set_combined p a 0)
      × Shows
          (writes d (document_operations set_combined p a 0))
          (requested_state set_combined p a s)
combined-IsQuiet p a s d = elim (Bool-cases (a == 23)) [
  | inl top ↦ let e = (==_iff a 23).0 top in rw top ((λ e. cc, (λ e. refl, tt)), omega arith)
  | inr low ↦ rw low ((λ e. cc, (λ e. refl, (λ e. cc, tt))), omega arith)
]

document_plan-IsQuiet :
    (t : MessageType) (p a : ℕ) (s : RfState) (d : Devices)
    → Shows d s
    → IsQuiet d (document_operations t p a s.attenuation_db)
      × Shows (writes d (document_operations t p a s.attenuation_db)) (requested_state t p a s)
document_plan-IsQuiet enter_safe p a s d h = ((λ e. cc, (λ e. refl, tt)), omega arith)
document_plan-IsQuiet set_combined p a s d h = combined-IsQuiet p a s d
document_plan-IsQuiet set_phase p a s d h = elim (Bool-cases (s.attenuation_db == 23)) [
  | inl top ↦
      let e = (==_iff s.attenuation_db 23).0 top in rw top ((λ _. omega arith, tt), omega arith)
  | inr low ↦ rw low ((λ e. cc, (λ e. refl, (λ e. cc, tt))), omega arith)
]
document_plan-IsQuiet set_vga p a s d h = ((λ e. cc, tt), omega arith)
document_plan-IsQuiet _ p a s d h = (tt, h)

-- Every command that the decoder lets through plans, from a state of at most 23 dB, successfully
-- and with at most three operations. Written to devices that hold the state, these change the
-- phase only at 23 dB, and leave the devices holding the resulting state, which is the one that
-- the command asks for.
pub plan_command_safe :
    (c : Command) (s : RfState) (plan0 : Plan) (d : Devices)
    → c.attenuation_db ≤ 23
    → s.attenuation_db ≤ 23
    → type_value c.type ≤ 4
    → Shows d s
    → let (result, plan) = plan_command c s plan0 in
      (result ≡ CommandResult.ok)
      × (plan.operation_count ≤ max_operations)
      × IsQuiet d (planned plan)
      × Shows (writes d (planned plan)) plan.resulting_state
      × (plan.resulting_state ≡ requested c s)
plan_command_safe c s plan0 d hc hs ht h =
    let (accepted, same, few, state) = plan_command_document c s plan0 hc hs ht in
    let (quiet, shown) = document_plan-IsQuiet c.type c.phase_state c.attenuation_db s d h in
    (
      accepted,
      few,
      subst (IsQuiet d) (sym same) quiet,
      subst₂ (λ os t. Shows (writes d os) t) (sym same) (sym state) shown,
      state,
    )

document_plan-recovers :
    (t : MessageType) (p a : ℕ) (s : RfState) (d : Devices)
    → (t ≡ set_combined) ⊎ (t ≡ enter_safe)
    → IsQuiet d (document_operations t p a s.attenuation_db)
      × Shows (writes d (document_operations t p a s.attenuation_db)) (requested_state t p a s)
document_plan-recovers set_combined p a s d h = combined-IsQuiet p a s d
document_plan-recovers enter_safe p a s d h = ((λ e. cc, (λ e. refl, tt)), omega arith)
document_plan-recovers _ p a s d (inl e) = cc
document_plan-recovers _ p a s d (inr e) = cc

-- A combined command and ENTER_SAFE need not know what the devices hold: from any devices, also
-- after a failed write, they change the phase only at 23 dB and end in what the command asks for.
pub plan_command_recovers :
    (c : Command) (s : RfState) (plan0 : Plan) (d : Devices)
    → c.attenuation_db ≤ 23
    → s.attenuation_db ≤ 23
    → (c.type ≡ set_combined) ⊎ (c.type ≡ enter_safe)
    → let (result, plan) = plan_command c s plan0 in
      (result ≡ CommandResult.ok)
      × IsQuiet d (planned plan)
      × Shows (writes d (planned plan)) (requested c s)
plan_command_recovers c s plan0 d hc hs ht =
    let small : type_value c.type ≤ 4 = ground arith in
    let (accepted, same, few, state) = plan_command_document c s plan0 hc hs small in
    let (quiet, shown) = document_plan-recovers c.type c.phase_state c.attenuation_db s d ht in
    (
      accepted,
      subst (IsQuiet d) (sym same) quiet,
      subst (λ os. Shows (writes d os) (requested c s)) (sym same) shown,
    )

-- A command with an attenuation above 23 dB plans no write of it: it fails before the attenuator
-- would be set.
pub plan_command_invalid :
    (c : Command) (s : RfState) (plan0 : Plan)
    → 23 < c.attenuation_db
    → (c.type ≡ set_combined) ⊎ (c.type ≡ set_vga)
    → (plan_command c s plan0).0 ≡ CommandResult.invalid_payload
unfolding plan_command make_vga_command
plan_command_invalid c s plan0 h ht = ground arith
