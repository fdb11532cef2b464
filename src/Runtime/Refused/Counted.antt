-- ===== src/Runtime/Refused/Counted.antt =====
-- The whole service of a refused frame.
use beamforming_software.Prelude.{
  ◌+◌, ◌≤◌, ◌≡◌, ◌≢◌, ◌⊎◌, inl, inr, refl, sym, ap, ◌∙◌, subst, arith, uint16_max,
}
use beamforming_software.Can.Protocol.{
  error, node_max, DecodeResult, CommandResult, Frame, Command, zero_command,
}
use beamforming_software.Can.Protocol.Id.{IdFields}
use beamforming_software.Can.Protocol.Decode.{decode_command, result_from_decode}
use beamforming_software.Can.Protocol.Encode.Laws.{IsResponse, result_bytes}
use beamforming_software.Can.TxQueue.{priority_error}
use beamforming_software.Platform.SpiGuard.{Peripherals}
use beamforming_software.Runtime.{
  Runtime, Bus, System, send_error_for_frame, serve_decoded, serve_frame,
}
use beamforming_software.Runtime.Quiet.{
  IsUntouched, counted, counted-IsUntouched, send_error_for_frame-IsUntouched,
}
use beamforming_software.Runtime.Refused.{
  IsAddressed, plain, plain-result, decode_command-plain, frame-Answers,
}

-- The refusal `d` of a frame: nothing is written, the invalid commands are counted up to the
-- greatest 16-bit number, and an ERROR goes out exactly if the frame asked this node.
pub record IsRefused {B : Type 0} (ops : Bus B) (p : Peripherals) (f : Frame) (d : DecodeResult)
    (s t : System B) : Type 0 where
  pub untouched : IsUntouched ops p s t
  pub counts :
      s.runtime.invalid_commands ≢ uint16_max
      → t.runtime.invalid_commands ≡ s.runtime.invalid_commands + 1
  pub saturates : s.runtime.invalid_commands ≡ uint16_max → t.runtime.invalid_commands ≡ uint16_max
  pub answer :
      ((id : IdFields) × IsAddressed s.runtime.node_id f id
        × (r : Frame) × IsResponse error s.runtime.node_id id.sequence 2
            (result_bytes id.type (result_from_decode d))
            r
        × ((result_from_decode d ≡ CommandResult.invalid_length)
            ⊎ (result_from_decode d ≡ CommandResult.invalid_payload))
        × (t.bus ≡ (ops.send r priority_error s.bus).1))
      ⊎ (((id : IdFields) → ¬ IsAddressed s.runtime.node_id f id) × (t.bus ≡ s.bus))

module _ {B : Type 0} (ops : Bus B) (p : Peripherals) (f : Frame) where
  counted-same :
      (s : System B)
      → ((counted ops p s).runtime.node_id ≡ s.runtime.node_id)
        × (s.runtime.invalid_commands ≢ uint16_max
            → (counted ops p s).runtime.invalid_commands ≡ s.runtime.invalid_commands + 1)
        × (s.runtime.invalid_commands ≡ uint16_max
            → (counted ops p s).runtime.invalid_commands ≡ uint16_max)
  counted-same s = (ground arith, (λ h. ground arith), (λ h. ground arith))

  send_error_for_frame-same :
      (d : DecodeResult) (s : System B) → (send_error_for_frame ops p f d s).runtime ≡ s.runtime
  unfolding send_error_for_frame
  send_error_for_frame-same d s = ground arith

  refusal :
      (d : DecodeResult) (s : System B)
      → s.runtime.node_id ≤ node_max
      → (decode_command f s.runtime.node_id zero_command).0 ≡ d
      → d ≢ DecodeResult.ok
      → IsRefused ops p f d s (send_error_for_frame ops p f d (counted ops p s))
  refusal d s hn e ne =
      let c = counted ops p s in
      let (node, counts, saturates) = counted-same s in
      let t = send_error_for_frame ops p f d c in
      let invalid = ap (λ (r : Runtime). r.invalid_commands) (send_error_for_frame-same d c) in
      record {
        untouched = counted-IsUntouched ops p s t (send_error_for_frame-IsUntouched ops p f d c);
        counts = λ h. invalid ∙ counts h;
        saturates = λ h. invalid ∙ saturates h;
        answer = elim (frame-Answers ops p f d c (subst (λ n. n ≤ node_max) (sym node) hn)) [
          | inl (id, a, r, says, out) ↦
              let a' = subst (λ n. IsAddressed n f id) node a in
              inl (
                id,
                a',
                r,
                subst
                    (λ n.
                      IsResponse error n id.sequence 2 (result_bytes id.type (result_from_decode d))
                        r)
                    node says,
                plain-result d
                    (ap plain (sym e)
                      ∙ decode_command-plain s.runtime.node_id f id zero_command hn a')
                    ne,
                ap (λ (u : System B). u.bus) out,
              )
          | inr (none_asked, out) ↦ inr (
            (λ id a. none_asked id (subst (λ n. IsAddressed n f id) (sym node) a)),
            ap (λ (u : System B). u.bus) out,
          )
        ];
      }

  refused :
      (d : DecodeResult) (c : Command) (s : System B)
      → d ≢ DecodeResult.ok
      → d ≢ DecodeResult.ignored
      → IsRefused ops p f d s (send_error_for_frame ops p f d (counted ops p s))
      → IsRefused ops p f d s (serve_decoded ops p (d, c) f s)
  refused DecodeResult.ok c s no_ok no_ignored h = absurd (no_ok refl)
  refused DecodeResult.ignored c s no_ok no_ignored h = absurd (no_ignored refl)
  refused _ c s no_ok no_ignored h = h

  -- On a node numbered at most 30, a frame that the decoder refuses and does not ignore leaves
  -- the devices, the cache, the retained record, the node's number and the lockout as they were,
  -- and is counted, up to 65535. An ERROR goes out exactly if the frame is an extended data frame
  -- from the controller to this node with the type of a command; it is given to the bus once,
  -- under the frame's sequence, with that type and INVALID_LENGTH or INVALID_PAYLOAD.
  pub serve_frame-IsRefused :
      (s : System B)
      → s.runtime.node_id ≤ node_max
      → let d = (decode_command f s.runtime.node_id zero_command).0 in
        d ≢ DecodeResult.ok
        → d ≢ DecodeResult.ignored
        → IsRefused ops p f d s (serve_frame ops p f s)
  unfolding serve_frame
  serve_frame-IsRefused s hn no_ok no_ignored =
      let (d, c) = decode_command f s.runtime.node_id zero_command in
      refused d c s no_ok no_ignored (refusal d s hn refl no_ok)
