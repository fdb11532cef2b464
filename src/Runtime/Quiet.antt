-- ===== src/Runtime/Quiet.antt =====
-- When the service of a frame may write to the devices, and that a retry does not.
use beamforming_software.Prelude.{
  ℕ, ◌≡◌, ◌≢◌, ◌⊎◌, inl, inr, refl, ap, sym, ◌∙◌, arith, Bool-cases, true, false, not, ◌==◌, ◌&&◌,
}
use beamforming_software.Can.Protocol.{
  MessageType, ping, enter_safe, type_value, DecodeResult, CommandResult, Frame, Command,
  zero_command, to_message_type, to_message_type-type_value,
}
use beamforming_software.Can.Protocol.Decode.{decode_command}
use beamforming_software.Platform.SpiGuard.{Peripherals}
use beamforming_software.Can.TxQueue.{priority_ack}
use beamforming_software.Rf.Plan.{zero_plan, plan_command}
use beamforming_software.Runtime.{
  increment_invalid_commands, Bus, System, ReplayResult, miss, sequence_reuse, hit,
  replay_cache_lookup, transmit, send_error_for_command, send_error_for_frame, send_status,
  planned_command, fresh_command, replayed, serve_decoded, serve_frame,
}

pub type_of_value : (t u : MessageType) → type_value t ≡ type_value u → t ≡ u
type_of_value t u e =
    sym (to_message_type-type_value t) ∙ (ap to_message_type e ∙ to_message_type-type_value u)

module _ {B : Type 0} (ops : Bus B) (p : Peripherals) where
  -- Nothing of the devices, of what is recorded of them, of the cache, of the retained record, of
  -- the node's number and of the lockout has changed.
  pub record IsUntouched (s t : System B) : Type 0 where
    pub same_board : t.board ≡ s.board
    pub same_state : t.runtime.state ≡ s.runtime.state
    pub same_phase : t.runtime.last_phase_command ≡ s.runtime.last_phase_command
    pub same_vga : t.runtime.last_vga_command ≡ s.runtime.last_vga_command
    pub same_cache : t.cache ≡ s.cache
    pub same_retained : t.retained ≡ s.retained
    pub same_node : t.runtime.node_id ≡ s.runtime.node_id
    pub same_lockout : t.runtime.safe_lockout ≡ s.runtime.safe_lockout

  pub send_error_for_command-IsUntouched :
      (c : Command) (r : CommandResult) (s : System B)
      → IsUntouched s (send_error_for_command ops p c r s)
  unfolding send_error_for_command
  send_error_for_command-IsUntouched c r s = ground arith

  pub send_status-IsUntouched : (c : Command) (s : System B) → IsUntouched s (send_status ops p c s)
  unfolding send_status
  send_status-IsUntouched c s = ground arith

  pub send_error_for_frame-IsUntouched :
      (f : Frame) (d : DecodeResult) (s : System B)
      → IsUntouched s (send_error_for_frame ops p f d s)
  unfolding send_error_for_frame
  send_error_for_frame-IsUntouched f d s = ground arith

  abbrev pub counted : System B → System B
  counted s = record s { runtime = increment_invalid_commands s.runtime }

  pub counted-IsUntouched : (s t : System B) → IsUntouched (counted s) t → IsUntouched s t
  counted-IsUntouched s t h = ground (
    arith, h.same_board, h.same_state, h.same_phase, h.same_vga, h.same_cache, h.same_retained,
    h.same_node, h.same_lockout,
  )

  pub transmit-IsUntouched :
      (f : Frame) (priority : ℕ) (s : System B) → IsUntouched s (transmit ops p f priority s)
  transmit-IsUntouched f priority s = ground arith

  -- A command that may write: no replay, no PING, and in the lockout only ENTER_SAFE.
  pub record MayWrite (c : Command) (f : Frame) (s : System B) : Type 0 where
    pub not_cached : replay_cache_lookup s.cache c f ≡ miss
    pub not_ping : c.type ≢ ping
    pub only_safe : s.runtime.safe_lockout ≡ true → c.type ≡ enter_safe

  pub fresh_command-quiet :
      (c : Command) (f : Frame) (s : System B)
      → replay_cache_lookup s.cache c f ≡ miss
      → IsUntouched s (fresh_command ops p c f s) ⊎ MayWrite c f s
  unfolding fresh_command
  fresh_command-quiet c f s m = elim (Bool-cases (type_value c.type == type_value ping)) [
    | inl e ↦ rw e (inl (send_status-IsUntouched c s))
    | inr ne ↦
        elim (Bool-cases
          (s.runtime.safe_lockout && not (type_value c.type == type_value enter_safe))) [
            | inl locked ↦
                rw (ne, locked) (inl (send_error_for_command-IsUntouched c CommandResult.busy s))
            | inr free ↦ inr (record {
              not_cached = m;
              not_ping = λ e. ground arith;
              only_safe = λ on. type_of_value c.type enter_safe (ground arith);
            })
          ]
  ]

  -- ENTER_SAFE is planned in every state.
  pub enter_safe-fresh :
      (c : Command) (f : Frame) (s : System B)
      → c.type ≡ enter_safe
      → fresh_command ops p c f s
        ≡ planned_command ops p (plan_command c s.runtime.state zero_plan) c f s
  unfolding fresh_command
  enter_safe-fresh c f s et =
      let value = ap type_value et in
      let unpinged : type_value c.type == type_value ping ≡ false = ground arith in
      let allowed : s.runtime.safe_lockout && not (type_value c.type == type_value enter_safe)
          ≡ false =
        ground arith in
      rw (unpinged, allowed) refl

  pub replayed-quiet :
      (r : ReplayResult) (c : Command) (f : Frame) (s : System B)
      → replay_cache_lookup s.cache c f ≡ r
      → IsUntouched s (replayed ops p r c f s) ⊎ MayWrite c f s
  replayed-quiet (hit response) c f s e = inl (transmit-IsUntouched response priority_ack s)
  replayed-quiet sequence_reuse c f s e = inl (
      counted-IsUntouched s _
        (send_error_for_command-IsUntouched c CommandResult.sequence_reuse (counted s)))
  replayed-quiet miss c f s e = fresh_command-quiet c f s e

  pub serve_decoded-quiet :
      (d : DecodeResult) (c : Command) (f : Frame) (s : System B)
      → IsUntouched s (serve_decoded ops p (d, c) f s) ⊎ ((d ≡ DecodeResult.ok) × MayWrite c f s)
  serve_decoded-quiet DecodeResult.ignored c f s = inl (ground arith)
  serve_decoded-quiet DecodeResult.ok c f s =
      elim (replayed-quiet (replay_cache_lookup s.cache c f) c f s refl) [
        | inl h ↦ inl h
        | inr w ↦ inr (refl, w)
      ]
  serve_decoded-quiet d c f s =
      inl (counted-IsUntouched s _ (send_error_for_frame-IsUntouched f d (counted s)))

  -- The service of a frame leaves the devices, what is recorded of them, the cache, the retained
  -- record, the node's number and the lockout as they were, unless the frame decodes to a command
  -- that is not a PING, does not match the cached request and, in the safe lockout, is
  -- ENTER_SAFE.
  pub serve_frame-IsUntouched :
      (f : Frame) (s : System B)
      → let (d, c) = decode_command f s.runtime.node_id zero_command in
        IsUntouched s (serve_frame ops p f s) ⊎ ((d ≡ DecodeResult.ok) × MayWrite c f s)
  unfolding serve_frame
  serve_frame-IsUntouched f s =
      let (d, c) = decode_command f s.runtime.node_id zero_command in serve_decoded-quiet d c f s
