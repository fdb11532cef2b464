-- ===== src/Runtime/Retry.antt =====
-- A retry of the last successful command is answered from the cache.
use beamforming_software.Prelude.{
  ℕ, zero, suc, ◌≤◌, ◌≡◌, ◌≢◌, refl, ap, ◌∙◌, arith, true, List, [], ◌∷◌, take, ◌++◌, length, ◌-◌,
  replicate,
}
use beamforming_software.Can.Protocol.{
  DecodeResult, Frame, Command, zero_frame, zero_command, node_broadcast, max_data_length,
}
use beamforming_software.Can.Protocol.Decode.{decode_command, is_state_changing_type}
use beamforming_software.Can.Protocol.Encode.{make_ack}
use beamforming_software.Can.TxQueue.{priority_ack}
use beamforming_software.Platform.SpiGuard.{Peripherals}
use beamforming_software.Rf.Plan.{Plan}
use beamforming_software.Runtime.{
  Bus, System, ReplayCache, hit, same_bytes, replay_cache_lookup, replay_cache_store_ack, transmit,
  send_ack, commit, serve_frame,
}

same_bytes_prefix :
    (n : ℕ) (xs ys : List ℕ)
    → n ≤ length xs
    → same_bytes (take n xs) (take n (take n xs ++ ys)) ≡ true
same_bytes_prefix zero xs ys h = refl
same_bytes_prefix (suc n) [] ys h = absurd (omega arith)
same_bytes_prefix (suc n) (x ∷ xs) ys h = ground (arith, same_bytes_prefix n xs ys (omega arith))

abbrev stored : Command → Frame → Frame → ReplayCache
stored c f response = record {
  valid = true;
  command = c;
  request_length = f.dlc;
  request_data = take f.dlc f.payload ++ replicate (max_data_length - f.dlc) 0;
  response = response;
}

store-stored :
    (cache : ReplayCache) (c : Command) (f response : Frame)
    → c.destination ≢ node_broadcast
    → is_state_changing_type c.type ≡ true
    → replay_cache_store_ack cache c f response ≡ stored c f response
unfolding replay_cache_store_ack
store-stored cache c f response hd ht = ground arith

lookup-stored :
    (c : Command) (f response : Frame)
    → c.destination ≢ node_broadcast
    → is_state_changing_type c.type ≡ true
    → f.dlc ≤ length f.payload
    → replay_cache_lookup (stored c f response) c f ≡ hit response
unfolding replay_cache_lookup
lookup-stored c f response hd ht hl =
    let same = same_bytes_prefix f.dlc f.payload (replicate (max_data_length - f.dlc) 0) hl in
    ground arith

pub lookup-store :
    (cache : ReplayCache) (c : Command) (f response : Frame)
    → c.destination ≢ node_broadcast
    → is_state_changing_type c.type ≡ true
    → f.dlc ≤ length f.payload
    → replay_cache_lookup (replay_cache_store_ack cache c f response) c f ≡ hit response
lookup-store cache c f response hd ht hl =
    rw (store-stored cache c f response hd ht) (lookup-stored c f response hd ht hl)

module _ {B : Type 0} (ops : Bus B) (p : Peripherals) where
  commit-cache :
      (c : Command) (f : Frame) (plan : Plan) (s : System B)
      → c.destination ≢ node_broadcast
      → (make_ack s.runtime.node_id c.source c.sequence c.type zero_frame).0 ≡ true
      → let ack = (make_ack s.runtime.node_id c.source c.sequence c.type zero_frame).1 in
        ((commit ops p c f plan s).cache ≡ replay_cache_store_ack s.cache c f ack)
        × ((commit ops p c f plan s).runtime.node_id ≡ s.runtime.node_id)
  unfolding commit send_ack
  commit-cache c f plan s hd hm = ground arith

  -- After a unicast command that changes state was executed and acknowledged, the same frame once
  -- more is answered with the same ACK, and the only change is to the bus.
  pub commit-retry :
      (c : Command) (f : Frame) (plan : Plan) (s : System B)
      → decode_command f s.runtime.node_id zero_command ≡ (DecodeResult.ok, c)
      → c.destination ≢ node_broadcast
      → is_state_changing_type c.type ≡ true
      → f.dlc ≤ length f.payload
      → (make_ack s.runtime.node_id c.source c.sequence c.type zero_frame).0 ≡ true
      → let after = commit ops p c f plan s in
        let ack = (make_ack s.runtime.node_id c.source c.sequence c.type zero_frame).1 in
        serve_frame ops p f after ≡ transmit ops p ack priority_ack after
  unfolding serve_frame
  commit-retry c f plan s hdec hd ht hl hm =
      let after = commit ops p c f plan s in
      let ack = (make_ack s.runtime.node_id c.source c.sequence c.type zero_frame).1 in
      let (cache, node) = commit-cache c f plan s hd hm in
      let again : decode_command f after.runtime.node_id zero_command ≡ (DecodeResult.ok, c) =
        ap (λ n. decode_command f n zero_command) node ∙ hdec in
      let found : replay_cache_lookup after.cache c f ≡ hit ack =
        ap (λ k. replay_cache_lookup k c f) cache ∙ lookup-store s.cache c f ack hd ht hl in
      rw again (rw found refl)
