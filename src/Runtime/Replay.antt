-- ===== src/Runtime/Replay.antt =====
-- The replay cache of stm32/app/src/can/runtime.c: the last request that was acknowledged, with its
-- answer.
use beamforming_software.Prelude.{
  ℕ, Bool, true, false, ◌&&◌, not, List, [], ◌∷◌, ◌==◌, if◌then◌else◌, ◌++◌, take, replicate, ◌-◌,
}
use beamforming_software.Can.Protocol.{
  type_value, Frame, zero_frame, Command, zero_command, node_broadcast, max_data_length,
}
use beamforming_software.Can.Protocol.Decode.{is_state_changing_type}

-- `can_replay_cache_t`
pub record ReplayCache : Type 0 where
  pub valid : Bool
  pub command : Command
  pub request_length : ℕ
  pub request_data : List ℕ
  pub response : Frame

abbrev pub zero_cache : ReplayCache
zero_cache = record {
  valid = false;
  command = zero_command;
  request_length = 0;
  request_data = replicate max_data_length 0;
  response = zero_frame;
}

-- `can_replay_result_t`, a hit with the response that it copies out
pub data ReplayResult : Type 0 where
  miss sequence_reuse : ReplayResult
  hit : Frame → ReplayResult

abbrev pub command_key_equal : Command → Command → Bool
command_key_equal left right =
    type_value left.type == type_value right.type
    && (left.destination == right.destination
        && (left.source == right.source && left.sequence == right.sequence))

-- `memcmp(...) == 0`
abbrev pub same_bytes : List ℕ → List ℕ → Bool
same_bytes [] [] = true
same_bytes (x ∷ xs) (y ∷ ys) = x == y && same_bytes xs ys
same_bytes _ _ = false

unfoldable pub replay_cache_lookup : ReplayCache → Command → Frame → ReplayResult
replay_cache_lookup cache command request =
    if command.destination == node_broadcast
    then miss
    else if not (is_state_changing_type command.type)
    then miss
    else if not cache.valid
    then miss
    else if not (command_key_equal command cache.command)
    then miss
    else if not (request.dlc == cache.request_length)
    then sequence_reuse
    else if not
        (same_bytes (take request.dlc request.payload) (take request.dlc cache.request_data))
    then sequence_reuse
    else hit cache.response

unfoldable pub replay_cache_store_ack : ReplayCache → Command → Frame → Frame → ReplayCache
replay_cache_store_ack cache command request response =
    if command.destination == node_broadcast
    then cache
    else if not (is_state_changing_type command.type)
    then cache
    else record {
      valid = true;
      command = command;
      request_length = request.dlc;
      request_data =
          take request.dlc request.payload ++ replicate (max_data_length - request.dlc) 0;
      response = response;
    }
