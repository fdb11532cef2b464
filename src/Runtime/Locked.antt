-- ===== src/Runtime/Locked.antt =====
-- The safe lockout through histories of services: the chips keep the safe outputs.
use beamforming_software.Prelude.{
  ℕ, ◌*◌, ◌≤◌, ◌≡◌, inl, inr, refl, sym, ap, ◌∙◌, subst, arith, true, List, [], ◌∷◌, ◌++◌,
}
use beamforming_software.Can.Protocol.{
  MessageType, enter_safe, type_value, vga_max_attenuation_db, DecodeResult, CommandResult, Frame,
  IsFrame, Command, zero_command,
}
use beamforming_software.Can.Protocol.Decode.{decode_command}
use beamforming_software.Can.Protocol.Decode.Laws.{decode-IsCommandFrame}
use beamforming_software.Platform.SpiGuard.{Peripherals}
use beamforming_software.Platform.DiagnosticRecord.{FirmwareFault, no_fault}
use beamforming_software.Rf.Plan.{Operation, Plan, zero_plan, plan_command}
use beamforming_software.Rf.Plan.Safety.{
  phase_word_of, document_operations, document_plan, plan_command_document,
}
use beamforming_software.Rf.Execute.{Outputs, execute_plan}
use beamforming_software.Rf.Execute.Prefix.{
  Seen, seen, complete, completes, begun, execute_plan-Ran, Ran,
}
use beamforming_software.Rf.Execute.Latches.{Chips}
use beamforming_software.Runtime.{
  Bus, System, spi_timeout_millis, send_ack, send_error_for_command, commit, finish_execution,
  run_plan, planned_command, replayed, serve_decoded, serve_frame,
}
use beamforming_software.Runtime.Quiet.{
  IsUntouched, MayWrite, enter_safe-fresh, serve_frame-IsUntouched,
}
use beamforming_software.Runtime.Guarded.{
  outputs, executed, IsSafe, untouched-IsSafe, plan_command-length,
}
use beamforming_software.Runtime.Served.{
  Step, serves, interrupts, Reach, here, later, Step-IsSafe, serve_frame-IsSafe,
}

-- Phase state 0 and 23 dB were the last to be recorded as sent.
abbrev pub ShowsSafe : Seen → Type 0
ShowsSafe v = (v.phase_word ≡ phase_word_of 0) × (v.vga_byte ≡ vga_max_attenuation_db * 4)

-- the operations that keep them
abbrev pub Keeps : Operation → Type 0
Keeps op = (v : Seen) → ShowsSafe v → ShowsSafe (complete v op) × ShowsSafe (begun v op)

abbrev pub AllKeep : List Operation → Type 0
AllKeep [] = Unit {0}
AllKeep (op ∷ ops) = Keeps op × AllKeep ops

completes-ShowsSafe :
    (done rest : List Operation) (v : Seen)
    → AllKeep (done ++ rest)
    → ShowsSafe v
    → ShowsSafe (completes v done) × AllKeep rest
completes-ShowsSafe [] rest v k h = (h, k)
completes-ShowsSafe (op ∷ ops) rest v (first, k) h =
    completes-ShowsSafe ops rest (complete v op) k (first v h).0

Ran-ShowsSafe :
    (ops : List Operation) (v : Seen) (x : FirmwareFault × Outputs)
    → AllKeep ops
    → ShowsSafe v
    → Ran ops v x
    → ShowsSafe (seen x.1)
unfolding Ran
Ran-ShowsSafe ops v x k h (done, rest, parts, inl (ok, none_left, out)) =
    subst ShowsSafe (sym out) (completes-ShowsSafe done rest v (subst AllKeep parts k) h).0
Ran-ShowsSafe ops v x k h (done, rest, parts, inr (bad, op, more, failed, out)) =
    let (shown, left) = completes-ShowsSafe done rest v (subst AllKeep parts k) h in
    let (keeps, _) = subst AllKeep failed left in
    elim out [
      | inl e ↦ subst ShowsSafe (sym e) shown
      | inr e ↦ subst ShowsSafe (sym e) (keeps (completes v done) shown).1
    ]

enter_safe-AllKeep :
    (t : MessageType) (p a now : ℕ) → t ≡ enter_safe → AllKeep (document_operations t p a now)
enter_safe-AllKeep t p a now e =
    subst (λ t. AllKeep (document_operations t p a now)) (sym e)
      ((λ v h. ((h.0, refl), h)), ((λ v h. ((refl, h.1), h)), tt))

module _ {B : Type 0} (ops : Bus B) (p : Peripherals) (chips : Chips) where
  -- The lockout is on, and the safe outputs were the last to be sent.
  pub record IsLocked (s : System B) : Type 0 where
    pub safe : IsSafe chips s
    pub locked : s.runtime.safe_lockout ≡ true
    pub shown : ShowsSafe (seen (outputs s))

  -- The lockout stays as it is.
  commit-safe_lockout :
      (c : Command) (f : Frame) (plan : Plan) (t : System B)
      → ((commit ops p c f plan t).runtime.safe_lockout ≡ t.runtime.safe_lockout)
        × (seen (outputs (commit ops p c f plan t)) ≡ seen (outputs t))
  unfolding commit send_ack
  commit-safe_lockout c f plan t = ground arith

  finish-safe_lockout :
      (cause : FirmwareFault) (c : Command) (f : Frame) (plan : Plan) (t : System B)
      → let u = finish_execution ops p cause c f plan t in
        (u.runtime.safe_lockout ≡ t.runtime.safe_lockout) × (seen (outputs u) ≡ seen (outputs t))
  unfolding send_error_for_command
  finish-safe_lockout no_fault c f plan t = commit-safe_lockout c f plan t
  finish-safe_lockout cause c f plan t = ground arith

  run_plan-ShowsSafe :
      (c : Command) (f : Frame) (s : System B)
      → c.type ≡ enter_safe
      → c.attenuation_db ≤ 23
      → s.runtime.state.attenuation_db ≤ 23
      → ShowsSafe (seen (outputs s))
      → let t = run_plan ops p c f (plan_command c s.runtime.state zero_plan).1 s in
        (t.runtime.safe_lockout ≡ s.runtime.safe_lockout) × ShowsSafe (seen (outputs t))
  unfolding run_plan
  run_plan-ShowsSafe c f s et hc hs h =
      let state = s.runtime.state in
      let plan = (plan_command c state zero_plan).1 in
      let value = ap type_value et in
      let (_, operations, few, _) = plan_command_document c state zero_plan hc hs (omega arith) in
      let full = plan_command-length c state zero_plan hc hs in
      let x = execute_plan p spi_timeout_millis plan (outputs s) in
      let ran = execute_plan-Ran p spi_timeout_millis plan (outputs s) (omega arith) in
      let (same, out) = finish-safe_lockout x.0 c f plan (executed s x) in
      let shown =
        Ran-ShowsSafe (document_plan c state) (seen (outputs s)) x
          (enter_safe-AllKeep c.type c.phase_state c.attenuation_db state.attenuation_db et) h
          (subst (λ os. Ran os (seen (outputs s)) x) operations ran) in
      (same, subst ShowsSafe (sym out) shown)

  pub serve_decoded-fresh :
      (c : Command) (f : Frame) (s : System B)
      → MayWrite ops p c f s
      → c.type ≡ enter_safe
      → (plan_command c s.runtime.state zero_plan).0 ≡ CommandResult.ok
      → serve_decoded ops p (DecodeResult.ok, c) f s
        ≡ run_plan ops p c f (plan_command c s.runtime.state zero_plan).1 s
  serve_decoded-fresh c f s w et accepted =
      let plan = (plan_command c s.runtime.state zero_plan).1 in
      ap (λ r. replayed ops p r c f s) w.not_cached
      ∙ (enter_safe-fresh ops p c f s et ∙ ap (λ r. planned_command ops p (r, plan) c f s) accepted)

  untouched-IsLocked : (s t : System B) → IsUntouched ops p s t → IsLocked s → IsLocked t
  untouched-IsLocked s t u i = record {
    safe = untouched-IsSafe ops p chips s t u i.safe;
    locked = u.same_lockout ∙ i.locked;
    shown = (u.same_phase ∙ i.shown.0, u.same_vga ∙ i.shown.1);
  }

  serve_frame-IsLocked :
      (f : Frame) (s : System B) → IsFrame f → IsLocked s → IsLocked (serve_frame ops p f s)
  unfolding serve_frame
  serve_frame-IsLocked f s h i = elim (serve_frame-IsUntouched ops p f s) [
    | inl u ↦ untouched-IsLocked s _ u i
    | inr (ok, w) ↦
        let x = decode_command f s.runtime.node_id zero_command in
        let c = x.1 in
        let d = decode-IsCommandFrame s.runtime.node_id f zero_command c h (λ k. (ok k, c)) in
        let et = w.only_safe i.locked in
        let value = ap type_value et in
        let (accepted, _, _, _) =
          plan_command_document c s.runtime.state zero_plan d.attenuation i.safe.bounded
            (omega arith) in
        let same : serve_frame ops p f s
            ≡ run_plan ops p c f (plan_command c s.runtime.state zero_plan).1 s =
          ap (λ r. serve_decoded ops p (r, c) f s) ok ∙ serve_decoded-fresh c f s w et accepted in
        let (kept, shown) = run_plan-ShowsSafe c f s et d.attenuation i.safe.bounded i.shown in
        record {
          safe = serve_frame-IsSafe ops p chips f s h i.safe;
          locked = ap (λ (t : System B). t.runtime.safe_lockout) same ∙ (kept ∙ i.locked);
          shown = subst (λ t. ShowsSafe (seen (outputs t))) (sym same) shown;
        }
  ]

  Step-IsLocked : {s t : System B} → Step ops p chips s t → IsLocked s → IsLocked t
  Step-IsLocked {s} (serves f h) i = serve_frame-IsLocked f s h i
  Step-IsLocked {s} (interrupts bus) i = record {
    safe = Step-IsSafe ops p chips (interrupts bus) i.safe;
    locked = i.locked;
    shown = i.shown;
  }

  -- Once the lockout is on with the safe outputs sent, it stays so whatever frames are served and
  -- whichever transfers fail.
  pub Reach-IsLocked : {s t : System B} → Reach ops p chips s t → IsLocked s → IsLocked t
  Reach-IsLocked here i = i
  Reach-IsLocked (later r step) i = Step-IsLocked step (Reach-IsLocked r i)
