-- ===== src/Rf/Execute/Latches.antt =====
-- What the two chips make of the trace of the pins: a shift register takes the data, and the rising
-- edge of the chip's line latches it.
use beamforming_software.Prelude.{
  ℕ, ◌*◌, ◌≤◌, ◌≡◌, ◌≢◌, ◌⊎◌, inl, inr, refl, sym, subst, ap, append-nil, ◌∙◌, arith, List, [], ◌∷◌,
  ◌++◌, u8, Bool-cases, ==_iff, ◌==◌,
}
use beamforming_software.Can.Protocol.{
  MessageType, enter_safe, set_combined, set_phase, set_vga, type_value, vga_max_attenuation_db,
}
use beamforming_software.Platform.DiagnosticRecord.{FirmwareFault, no_fault}
use beamforming_software.Rf.Plan.{OperationType, Operation, phase, vga, RfState}
use beamforming_software.Rf.Plan.Safety.{document_operations, requested_state}
use beamforming_software.Rf.Drivers.{Event, cs_high, le_high, vga_data, phase_data}
use beamforming_software.Rf.Execute.{Outputs}
use beamforming_software.Rf.Execute.Prefix.{Seen, seen, complete, completes, begun, Ran}

-- The shift register and the latch of the phase shifter and of the attenuator.
pub record Chips : Type 0 where
  pub phase_shift : ℕ
  pub vga_shift : ℕ
  pub phase_word : ℕ
  pub vga_byte : ℕ

abbrev pub sees : Event → Chips → Chips
sees cs_high c = record c { vga_byte = c.vga_shift }
sees le_high c = record c { phase_word = c.phase_shift }
sees (vga_data byte) c = record c { vga_shift = byte }
sees (phase_data word) c = record c { phase_shift = word }
sees _ c = c

-- after a trace, which has the newest event first
abbrev pub chips_after : Chips → List Event → Chips
chips_after c [] = c
chips_after c (e ∷ es) = sees e (chips_after c es)

-- The phase shifter latched only while the attenuator held 23 dB.
abbrev pub IsQuietTrace : Chips → List Event → Type 0
IsQuietTrace c [] = Unit {0}
IsQuietTrace c (le_high ∷ es) =
    ((chips_after c es).vga_byte ≡ vga_max_attenuation_db * 4) × IsQuietTrace c es
IsQuietTrace c (_ ∷ es) = IsQuietTrace c es

-- The trace is quiet, and the recorded commands are what the chips hold.
pub record IsLatched (c : Chips) (s : Seen) : Type 0 where
  pub quiet : IsQuietTrace c s.trace
  pub phase_latched : (chips_after c s.trace).phase_word ≡ s.phase_word
  pub vga_latched : (chips_after c s.trace).vga_byte ≡ s.vga_byte

-- the attenuator's byte after operations
abbrev pub byte_after : ℕ → Operation → ℕ
byte_after v o = elim o.type [ vga ↦ u8 o.command | phase ↦ v ]

abbrev pub bytes_after : ℕ → List Operation → ℕ
bytes_after v [] = v
bytes_after v (o ∷ os) = bytes_after (byte_after v o) os

-- The attenuator holds the recorded attenuation or 23 dB.
abbrev pub IsHeld : ℕ → ℕ → Type 0
IsHeld a v = (v ≡ a * 4) ⊎ (v ≡ vga_max_attenuation_db * 4)

-- Before every operation the attenuator holds the recorded attenuation or 23 dB, and 23 dB before a
-- phase.
abbrev pub IsGuarded : ℕ → ℕ → List Operation → Type 0
IsGuarded a v [] = Unit {0}
IsGuarded a v (o ∷ os) =
    IsHeld a v × (o.type ≡ phase → v ≡ vga_max_attenuation_db * 4) × IsGuarded a (byte_after v o) os

complete-byte :
    (t : OperationType) (n : ℕ) (s : Seen)
    → (complete s (record { type = t; command = n })).vga_byte
      ≡ byte_after s.vga_byte (record { type = t; command = n })
complete-byte vga n s = refl
complete-byte phase n s = refl

completes-bytes :
    (s : Seen) (ops : List Operation) → (completes s ops).vga_byte ≡ bytes_after s.vga_byte ops
completes-bytes s [] = refl
completes-bytes s (o ∷ os) =
    completes-bytes (complete s o) os ∙ (λ k. bytes_after (complete-byte o.type o.command s k) os)

complete-IsLatched :
    (c : Chips) (t : OperationType) (n : ℕ) (s : Seen)
    → (t ≡ phase → s.vga_byte ≡ vga_max_attenuation_db * 4)
    → IsLatched c s
    → IsLatched c (complete s (record { type = t; command = n }))
complete-IsLatched c vga n s h l = record {
  quiet = l.quiet;
  phase_latched = l.phase_latched;
  vga_latched = refl;
}
complete-IsLatched c phase n s h l = record {
  quiet = (l.vga_latched ∙ h refl, l.quiet);
  phase_latched = refl;
  vga_latched = l.vga_latched;
}

begun-IsLatched :
    (c : Chips) (t : OperationType) (n : ℕ) (s : Seen)
    → IsLatched c s
    → IsLatched c (begun s (record { type = t; command = n }))
      × ((begun s (record { type = t; command = n })).vga_byte ≡ s.vga_byte)
begun-IsLatched c vga n s l =
    (record { quiet = l.quiet; phase_latched = l.phase_latched; vga_latched = l.vga_latched }, refl)
begun-IsLatched c phase n s l =
    (record { quiet = l.quiet; phase_latched = l.phase_latched; vga_latched = l.vga_latched }, refl)

completes-IsLatched :
    (c : Chips) (a : ℕ) (done rest : List Operation) (s : Seen)
    → IsGuarded a s.vga_byte (done ++ rest)
    → IsLatched c s
    → IsLatched c (completes s done) × IsGuarded a (completes s done).vga_byte rest
completes-IsLatched c a [] rest s g l = (l, g)
completes-IsLatched c a (o ∷ os) rest s (_, quiet, g) l =
    completes-IsLatched c a os rest (complete s o)
      (subst (λ v. IsGuarded a v (os ++ rest)) (sym (complete-byte o.type o.command s)) g)
      (complete-IsLatched c o.type o.command s quiet l)

-- What an execution leaves: without a fault the bytes of all operations, and with one the recorded
-- attenuation or 23 dB.
abbrev pub Left : ℕ → List Operation → Seen → FirmwareFault × Outputs → Type 0
Left a ops s (cause, o) =
    ((cause ≡ no_fault) × (o.last_vga_command ≡ bytes_after s.vga_byte ops))
    ⊎ ((cause ≢ no_fault) × IsHeld a o.last_vga_command)

pub Ran-IsLatched :
    (c : Chips) (a : ℕ) (ops : List Operation) (s : Seen) (x : FirmwareFault × Outputs)
    → IsGuarded a s.vga_byte ops
    → IsLatched c s
    → Ran ops s x
    → IsLatched c (seen x.1) × Left a ops s x
unfolding Ran
Ran-IsLatched c a ops s x g l (done, rest, parts, inl (ok, none_left, out)) =
    let whole : done ≡ ops =
      sym (parts ∙ (ap (λ more. done ++ more) none_left ∙ append-nil done)) in
    let (latched, _) =
      completes-IsLatched c a done rest s (subst (IsGuarded a s.vga_byte) parts g) l in
    (
      subst (IsLatched c) (sym out) latched,
      inl (
        ok,
        ap (λ (t : Seen). t.vga_byte) out
            ∙ (completes-bytes s done ∙ ap (bytes_after s.vga_byte) whole),
      ),
    )
Ran-IsLatched c a ops s x g l (done, rest, parts, inr (bad, op, more, failed, out)) =
    let after = completes s done in
    let (latched, guarded) =
      completes-IsLatched c a done rest s (subst (IsGuarded a s.vga_byte) parts g) l in
    let (held, _, _) = subst (IsGuarded a after.vga_byte) failed guarded in
    let (started, same) = begun-IsLatched c op.type op.command after latched in
    elim out [
      | inl e ↦ (
        subst (IsLatched c) (sym e) latched,
        inr (bad, subst (IsHeld a) (sym (ap (λ (t : Seen). t.vga_byte) e)) held),
      )
      | inr e ↦ (
        subst (IsLatched c) (sym e) started,
        inr (bad, subst (IsHeld a) (sym (ap (λ (t : Seen). t.vga_byte) e ∙ same)) held),
      )
    ]

combined-IsGuarded :
    (a v p b : ℕ)
    → IsHeld a v
    → b ≤ 23
    → IsGuarded a v (document_operations set_combined p b a)
      × (bytes_after v (document_operations set_combined p b a) ≡ b * 4)
combined-IsGuarded a v p b h le = elim (Bool-cases (b == 23)) [
  | inl top ↦
      let e = (==_iff b 23).0 top in
      rw top ((h, (λ t. cc), (inr refl, (λ t. refl), tt)), omega arith)
  | inr low ↦
      rw low ((h, (λ t. cc), (inr refl, (λ t. refl), (inr refl, (λ t. cc), tt))), omega arith)
]

phase-IsGuarded :
    (a v p b : ℕ)
    → IsHeld a v
    → a ≤ 23
    → IsGuarded a v (document_operations set_phase p b a)
      × (bytes_after v (document_operations set_phase p b a) ≡ a * 4)
phase-IsGuarded a v p b h le = elim (Bool-cases (a == 23)) [
  | inl top ↦
      let e = (==_iff a 23).0 top in
      let full : v ≡ vga_max_attenuation_db * 4 = omega arith in
      rw top ((h, (λ t. full), tt), omega arith)
  | inr low ↦
      rw low ((h, (λ t. cc), (inr refl, (λ t. refl), (inr refl, (λ t. cc), tt))), omega arith)
]

-- The operations of every command are guarded, and end in the attenuation that is then recorded.
pub document_operations-IsGuarded :
    (t : MessageType) (p b v : ℕ) (s : RfState)
    → IsHeld s.attenuation_db v
    → b ≤ 23
    → s.attenuation_db ≤ 23
    → type_value t ≤ 3
    → IsGuarded s.attenuation_db v (document_operations t p b s.attenuation_db)
      × (bytes_after v (document_operations t p b s.attenuation_db)
          ≡ (requested_state t p b s).attenuation_db * 4)
      × ((requested_state t p b s).attenuation_db ≤ 23)
document_operations-IsGuarded enter_safe p b v s h hb hs ht =
    ((h, (λ t. cc), (inr refl, (λ t. refl), tt)), refl, omega arith)
document_operations-IsGuarded set_combined p b v s h hb hs ht =
    let (guarded, last) = combined-IsGuarded s.attenuation_db v p b h hb in (guarded, last, hb)
document_operations-IsGuarded set_phase p b v s h hb hs ht =
    let (guarded, last) = phase-IsGuarded s.attenuation_db v p b h hs in (guarded, last, hs)
document_operations-IsGuarded set_vga p b v s h hb hs ht = ((h, (λ t. cc), tt), omega arith, hb)
document_operations-IsGuarded _ p b v s h hb hs ht = absurd (omega arith)
