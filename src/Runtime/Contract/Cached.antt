-- ===== src/Runtime/Contract/Cached.antt =====
-- The replay cache through histories of services: what it holds is the ACK of the cached command.
use beamforming_software.Prelude.{
  ℕ, ◌≤◌, ◌≡◌, inl, inr, refl, sym, ap, ◌∙◌, subst, subst₂, arith, Bool-cases, true, ◌==◌, ==_iff,
}
use beamforming_software.Can.Protocol.{
  ack, enter_safe, type_value, node_max, node_broadcast, DecodeResult, CommandResult, Frame,
  IsFrame, Command, zero_command,
}
use beamforming_software.Can.Protocol.Decode.{decode_command}
use beamforming_software.Can.Protocol.Decode.Laws.{decode-IsCommandFrame}
use beamforming_software.Can.Protocol.Encode.Laws.{IsResponse, result_bytes}
use beamforming_software.Platform.SpiGuard.{Peripherals}
use beamforming_software.Platform.DiagnosticRecord.{FirmwareFault, no_fault}
use beamforming_software.Platform.RetainedDiagnostics
use beamforming_software.Rf.Plan.{Plan, zero_plan, plan_command}
use beamforming_software.Rf.Plan.Safety.{plan_command_document}
use beamforming_software.Rf.Execute.{execute_plan}
use beamforming_software.Rf.Execute.Latches.{Chips}
use beamforming_software.Runtime.{
  Bus, System, ReplayCache, hit, replay_cache_lookup, spi_timeout_millis, commit, finish_execution,
  run_plan, serve_decoded, serve_frame, send_error_for_command,
}
use beamforming_software.Runtime.Quiet.{
  type_of_value, serve_frame-IsUntouched, send_error_for_command-IsUntouched,
}
use beamforming_software.Runtime.Guarded.{outputs, executed, IsSafe}
use beamforming_software.Runtime.Served.{
  Step, serves, interrupts, Reach, here, later, Step-IsSafe, serve_frame-IsSafe,
}
use beamforming_software.Runtime.Locked.{serve_decoded-fresh}
use beamforming_software.Runtime.Contract.{
  Promise, reported, repeated, reused, locked_out, done, failed,
}
use beamforming_software.Runtime.Contract.Kept.{serve_frame-Promise}

-- A valid cache holds the ACK that the node gave the cached command.
abbrev pub IsCache : ℕ → ReplayCache → Type 0
IsCache node cache =
    cache.valid ≡ true
    → IsResponse ack node cache.command.sequence 2
        (result_bytes cache.command.type CommandResult.ok) cache.response

-- a hit is the cached response, under the cached key
hit_inversion :
    (cache : ReplayCache) (c : Command) (request f : Frame)
    → replay_cache_lookup cache c request ≡ hit f
    → (cache.valid ≡ true)
      × (cache.response ≡ f)
      × (cache.command.sequence ≡ c.sequence)
      × (type_value cache.command.type ≡ type_value c.type)
unfolding replay_cache_lookup
hit_inversion cache c request f e = ground arith

-- so that it answers the command
pub hit-IsResponse :
    (node : ℕ) (cache : ReplayCache) (c : Command) (request f : Frame)
    → IsCache node cache
    → replay_cache_lookup cache c request ≡ hit f
    → IsResponse ack node c.sequence 2 (result_bytes c.type CommandResult.ok) f
hit-IsResponse node cache c request f i e =
    let (valid, same, sequence, type) = hit_inversion cache c request f e in
    let same_type = type_of_value cache.command.type c.type type in
    subst (λ r. IsResponse ack node c.sequence 2 (result_bytes c.type CommandResult.ok) r) same
      (subst₂ (λ n t. IsResponse ack node n 2 (result_bytes t CommandResult.ok) cache.response)
        sequence same_type (i valid))

-- The other way round: what answers a command that the cache hits is the cached ACK.
kept-IsCache :
    (node : ℕ) (cache : ReplayCache) (c : Command) (request f : Frame)
    → replay_cache_lookup cache c request ≡ hit f
    → IsResponse ack node c.sequence 2 (result_bytes c.type CommandResult.ok) f
    → IsCache node cache
kept-IsCache node cache c request f e says valid =
    let (_, same, sequence, type) = hit_inversion cache c request f e in
    let same_type = type_of_value cache.command.type c.type type in
    subst
      (λ r.
        IsResponse ack node cache.command.sequence 2
          (result_bytes cache.command.type CommandResult.ok) r)
      (sym same)
      (subst₂ (λ n t. IsResponse ack node n 2 (result_bytes t CommandResult.ok) f) (sym sequence)
        (sym same_type) says)

module _ {B : Type 0} (ops : Bus B) (p : Peripherals) (chips : Chips) where
  -- A node that serves: its chips are safe, its number is one of a node, and its cache is that of
  -- the last ACK.
  pub record IsServing (s : System B) : Type 0 where
    pub safe : IsSafe chips s
    pub node : s.runtime.node_id ≤ node_max
    pub cache : IsCache s.runtime.node_id s.cache

  -- What a step does to the node's number and to the cache.
  abbrev Keeps : System B → System B → Type 0
  Keeps s t =
      (t.runtime.node_id ≡ s.runtime.node_id)
      × (IsCache s.runtime.node_id s.cache → IsCache s.runtime.node_id t.cache)

  same-Keeps :
      (s t : System B) → t.runtime.node_id ≡ s.runtime.node_id → t.cache ≡ s.cache → Keeps s t
  same-Keeps s t node cache = (node, subst (IsCache s.runtime.node_id) (sym cache))

  Promise-Keeps : (c : Command) (f : Frame) (s t : System B) → Promise ops p c f s t → Keeps s t
  Promise-Keeps c f s _ (reported r first k says) = (refl, λ i. i)
  Promise-Keeps c f s _ (repeated r e) = (refl, λ i. i)
  Promise-Keeps c f s _ (reused r e says) = (ground arith, λ i. i)
  Promise-Keeps c f s _ (locked_out r first active on k says) = (refl, λ i. i)
  Promise-Keeps c f s t (done r _ e) =
      (e.same_node, λ i. kept-IsCache s.runtime.node_id t.cache c f r e.kept e.says)
  Promise-Keeps c f s t (failed r _ e) = same-Keeps s t e.same_node e.cache

  -- A broadcast ENTER_SAFE empties the cache, or leaves it if it fails.
  broadcast_commit-Keeps :
      (c : Command) (f : Frame) (plan : Plan) (t : System B)
      → c.destination ≡ node_broadcast
      → Keeps t (commit ops p c f plan t)
  unfolding commit
  broadcast_commit-Keeps c f plan t to_all =
      let addressed : c.destination == node_broadcast ≡ true = ground arith in
      rw addressed (refl, λ i e. cc)

  finish-Keeps :
      (cause : FirmwareFault) (c : Command) (f : Frame) (plan : Plan) (t : System B)
      → c.destination ≡ node_broadcast
      → Keeps t (finish_execution ops p cause c f plan t)
  finish-Keeps no_fault c f plan t to_all = broadcast_commit-Keeps c f plan t to_all
  finish-Keeps cause c f plan t to_all =
      let faulted : System B = record t {
        retained = RetainedDiagnostics.set_fault t.retained cause;
      } in
      let u = send_error_for_command-IsUntouched ops p c CommandResult.hardware faulted in
      same-Keeps t (send_error_for_command ops p c CommandResult.hardware faulted) u.same_node
        u.same_cache

  run_plan-Keeps :
      (c : Command) (f : Frame) (plan : Plan) (s : System B)
      → c.destination ≡ node_broadcast
      → Keeps s (run_plan ops p c f plan s)
  unfolding run_plan
  run_plan-Keeps c f plan s to_all =
      let x = execute_plan p spi_timeout_millis plan (outputs s) in
      finish-Keeps x.0 c f plan (executed s x) to_all

  serve_frame-Keeps :
      (f : Frame) (s : System B) → IsFrame f → IsServing s → Keeps s (serve_frame ops p f s)
  unfolding serve_frame
  serve_frame-Keeps f s h i = elim (serve_frame-IsUntouched ops p f s) [
    | inl u ↦ same-Keeps s (serve_frame ops p f s) u.same_node u.same_cache
    | inr (ok, w) ↦
        let x = decode_command f s.runtime.node_id zero_command in
        let c = x.1 in
        let whole : x ≡ (DecodeResult.ok, c) = λ k. (ok k, c) in
        let d = decode-IsCommandFrame s.runtime.node_id f zero_command c h whole in
        elim (Bool-cases (c.destination == node_broadcast)) [
          | inr unicast ↦
              Promise-Keeps c f s (serve_frame ops p f s)
                (serve_frame-Promise ops p f s c h i.node i.safe.bounded whole (λ e. ground arith))
          | inl all ↦
              let to_all = (==_iff c.destination node_broadcast).0 all in
              let et : c.type ≡ enter_safe = elim d.destination [
                | inl self ↦ absurd (omega (arith, i.node))
                | inr (_, safe) ↦ safe
              ] in
              let value = ap type_value et in
              let (accepted, _, _, _) =
                plan_command_document c s.runtime.state zero_plan d.attenuation i.safe.bounded
                  (omega arith) in
              let same : serve_frame ops p f s
                  ≡ run_plan ops p c f (plan_command c s.runtime.state zero_plan).1 s =
                ap (λ r. serve_decoded ops p (r, c) f s) ok
                ∙ serve_decoded-fresh ops p chips c f s w et accepted in
              subst (Keeps s) (sym same)
                (run_plan-Keeps c f (plan_command c s.runtime.state zero_plan).1 s to_all)
        ]
  ]

  Step-IsServing : {s t : System B} → Step ops p chips s t → IsServing s → IsServing t
  Step-IsServing {s} (serves f h) i =
      let (node, cache) = serve_frame-Keeps f s h i in
      record {
        safe = serve_frame-IsSafe ops p chips f s h i.safe;
        node = subst (λ n. n ≤ node_max) (sym node) i.node;
        cache = subst (λ n. IsCache n (serve_frame ops p f s).cache) (sym node) (cache i.cache);
      }
  Step-IsServing {s} (interrupts bus) i = record {
    safe = Step-IsSafe ops p chips (interrupts bus) i.safe;
    node = i.node;
    cache = i.cache;
  }

  Step-node :
      {s t : System B} → Step ops p chips s t → IsServing s → t.runtime.node_id ≡ s.runtime.node_id
  Step-node {s} (serves f h) i = (serve_frame-Keeps f s h i).0
  Step-node (interrupts bus) i = refl

  -- Whatever frames are served, in whatever order with changes of the bus, and whichever transfers
  -- fail: a node that serves goes on serving, with safe chips and a cache that, when it is valid,
  -- holds the ACK of the cached command under the node's number, and that number stays the same.
  pub Reach-IsServing :
      {s t : System B}
      → Reach ops p chips s t
      → IsServing s
      → IsServing t × (t.runtime.node_id ≡ s.runtime.node_id)
  Reach-IsServing here i = (i, refl)
  Reach-IsServing (later r step) i =
      let (before, same) = Reach-IsServing r i in
      (Step-IsServing step before, Step-node step before ∙ same)
