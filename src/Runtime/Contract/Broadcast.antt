-- ===== src/Runtime/Contract/Broadcast.antt =====
-- The contract of a broadcast: ENTER_SAFE, which no node answers.
use beamforming_software.Prelude.{
  ◌≤◌, ◌≡◌, ◌≢◌, ◌⊎◌, inl, inr, refl, sym, ap, ◌∙◌, subst, arith, true, ◌==◌,
}
use beamforming_software.Can.Protocol.{
  enter_safe, type_value, node_max, node_broadcast, vga_max_attenuation_db, DecodeResult, Frame,
  IsFrame, Command, zero_command,
}
use beamforming_software.Can.Protocol.Decode.{decode_command}
use beamforming_software.Can.Protocol.Decode.Laws.{decode-IsCommandFrame}
use beamforming_software.Platform.SpiGuard.{Peripherals}
use beamforming_software.Platform.DiagnosticRecord.{FirmwareFault, no_fault}
use beamforming_software.Platform.RetainedDiagnostics
use beamforming_software.Rf.Plan.{Plan, zero_plan, plan_command}
use beamforming_software.Rf.Plan.Safety.{document_plan, plan_command_document, requested}
use beamforming_software.Rf.Execute.{Outputs, execute_plan}
use beamforming_software.Rf.Execute.Prefix.{seen, completes, execute_plan-Ran, Ran, Ran-whole}
use beamforming_software.Runtime.{
  Bus, System, miss, replay_cache_lookup, zero_cache, spi_timeout_millis, send_error_for_command,
  commit, finish_execution, run_plan, planned_command, replayed, serve_decoded, serve_frame,
}
use beamforming_software.Runtime.Quiet.{enter_safe-fresh}
use beamforming_software.Runtime.Guarded.{outputs, executed, plan_command-length}

module _ {B : Type 0} (c : Command) where
  -- The whole plan was executed, the state is the requested one, and the cache is empty.
  pub record IsObeyed (s t : System B) : Type 0 where
    pub written : seen (outputs t) ≡ completes (seen (outputs s)) (document_plan c s.runtime.state)
    pub state : t.runtime.state ≡ requested c s.runtime.state
    pub cache : t.cache ≡ zero_cache

  -- The plan was executed up to an operation that failed, and the fault is recorded.
  pub record IsAborted (s t : System B) : Type 0 where
    pub cause : FirmwareFault
    pub faulty : cause ≢ no_fault
    pub ran : Ran (document_plan c s.runtime.state) (seen (outputs s)) (cause, outputs t)
    pub state : t.runtime.state ≡ s.runtime.state
    pub cache : t.cache ≡ s.cache
    pub recorded : t.retained ≡ RetainedDiagnostics.set_fault s.retained cause

  -- Nothing is sent either way.
  abbrev pub Obeyed : System B → System B → Type 0
  Obeyed s t = (t.bus ≡ s.bus) × (IsObeyed s t ⊎ IsAborted s t)

module _ {B : Type 0} (ops : Bus B) (p : Peripherals) (c : Command) (f : Frame)
    (to_all : c.destination ≡ node_broadcast) where
  addressed : c.destination == node_broadcast ≡ true
  addressed = ground arith

  finish-Obeyed :
      (plan : Plan) (s : System B) (x : FirmwareFault × Outputs)
      → Ran (document_plan c s.runtime.state) (seen (outputs s)) x
      → (x.0 ≡ no_fault → seen x.1 ≡ completes (seen (outputs s)) (document_plan c s.runtime.state))
      → plan.resulting_state ≡ requested c s.runtime.state
      → Obeyed c s (finish_execution ops p x.0 c f plan (executed s x))
  unfolding commit send_error_for_command
  finish-Obeyed plan s (no_fault, o) ran whole state =
      rw addressed (refl, inl (record { written = whole refl; state = state; cache = refl }))
  finish-Obeyed plan s (cause, o) ran whole state = rw addressed (
    refl,
    inr (record {
      cause = cause;
      faulty = λ e. cc;
      ran = ran;
      state = refl;
      cache = refl;
      recorded = refl;
    }),
  )

  run_plan-Obeyed :
      (s : System B)
      → c.type ≡ enter_safe
      → c.attenuation_db ≤ vga_max_attenuation_db
      → s.runtime.state.attenuation_db ≤ vga_max_attenuation_db
      → Obeyed c s (run_plan ops p c f (plan_command c s.runtime.state zero_plan).1 s)
  unfolding run_plan
  run_plan-Obeyed s et hc hs =
      let state = s.runtime.state in
      let value = ap type_value et in
      let plan = (plan_command c state zero_plan).1 in
      let (_, operations, few, result) =
        plan_command_document c state zero_plan hc hs (omega arith) in
      let full = plan_command-length c state zero_plan hc hs in
      let x = execute_plan p spi_timeout_millis plan (outputs s) in
      let ran =
        subst (λ os. Ran os (seen (outputs s)) x) operations
          (execute_plan-Ran p spi_timeout_millis plan (outputs s) (omega arith)) in
      finish-Obeyed plan s x ran (Ran-whole (document_plan c state) (seen (outputs s)) x ran) result

  never_cached : (s : System B) → replay_cache_lookup s.cache c f ≡ miss
  unfolding replay_cache_lookup
  never_cached s = rw addressed refl

-- On a node numbered at most 30, whose state has an attenuation of at most 23 dB, a frame of
-- eight bytes of data that decodes to a broadcast command is ENTER_SAFE. Nothing is given to the
-- bus, and either the whole plan was executed, the state is the safe one and the cache is empty,
-- or it was executed up to a failed operation, the fault is recorded, and the state and the cache
-- are as before.
pub serve_frame-Obeyed :
    {B : Type 0} (ops : Bus B) (p : Peripherals) (f : Frame) (s : System B) (c : Command)
    → IsFrame f
    → s.runtime.node_id ≤ node_max
    → s.runtime.state.attenuation_db ≤ vga_max_attenuation_db
    → decode_command f s.runtime.node_id zero_command ≡ (DecodeResult.ok, c)
    → c.destination ≡ node_broadcast
    → (c.type ≡ enter_safe) × Obeyed c s (serve_frame ops p f s)
unfolding serve_frame
serve_frame-Obeyed ops p f s c h hn hs e to_all =
    let w = decode-IsCommandFrame s.runtime.node_id f zero_command c h e in
    let et : c.type ≡ enter_safe = elim w.destination [
      | inl self ↦ absurd (omega arith)
      | inr (_, safe) ↦ safe
    ] in
    let value = ap type_value et in
    let (accepted, _, _, _) =
      plan_command_document c s.runtime.state zero_plan w.attenuation hs (omega arith) in
    let plan = (plan_command c s.runtime.state zero_plan).1 in
    let same : serve_frame ops p f s ≡ run_plan ops p c f plan s =
      ap (λ x. serve_decoded ops p x f s) e
      ∙ (ap (λ r. replayed ops p r c f s) (never_cached ops p c f to_all s)
          ∙ (enter_safe-fresh ops p c f s et
              ∙ ap (λ r. planned_command ops p (r, plan) c f s) accepted)) in
    (et, subst (Obeyed c s) (sym same) (run_plan-Obeyed ops p c f to_all s et w.attenuation hs))
