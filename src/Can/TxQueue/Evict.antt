-- ===== src/Can/TxQueue/Evict.antt =====
-- Which entry a full transmit queue gives up for a more urgent frame.
use beamforming_software.Prelude.{
  ℕ, zero, suc, ◌-◌, ◌≤◌, ◌<◌, ◌≡◌, ◌≢◌, refl, arith, true, false, List, [], ◌∷◌, ◌++◌, length-set,
  set, take, if◌then◌else◌, ltb, leb, ◌==◌, ◌||◌, ◌⊎◌, inl, inr, ℕ_discrete, dec_lt, get_or-take,
  ap,
}
use beamforming_software.Can.Protocol.{Frame}
use beamforming_software.Can.TxQueue.{
  push, remove, TxQueue, Entry, zero_entry, priority_at, priority_count, capacity, evict_loop,
  shift_loop, replace_lower_priority,
}
use beamforming_software.Can.TxQueue.Contents.{
  IsValid, contents, remove_at, push-IsValid, remove-IsValid, take-set, take-shift_loop,
  length-shift_loop,
}

-- `c` is the last of the greatest among the values of `p` from `from` to `bound`, and is above
-- `limit`.
pub record IsLastGreatest (p : ℕ → ℕ) (limit from bound c : ℕ) : Type 0 where
  pub low : from ≤ c
  pub high : c < bound
  pub above : limit < p c
  pub greatest : (j : ℕ) → from ≤ j → j < bound → p j ≤ p c
  pub last : (j : ℕ) → c < j → j < bound → p j < p c

-- What the backward search knows when it has come down to `from`: a candidate, or that there is
-- none.
abbrev pub Candidate : (ℕ → ℕ) → ℕ → ℕ → ℕ → ℕ → Type 0
Candidate p limit from bound c =
    ((c ≡ bound) × ((j : ℕ) → from ≤ j → j < bound → p j ≤ limit))
    ⊎ IsLastGreatest p limit from bound c

Candidate-step :
    (p : ℕ → ℕ) (limit from bound c : ℕ)
    → from < bound
    → Candidate p limit (suc from) bound c
    → Candidate p limit from bound
        (if leb (p from) limit then c else if c == bound || ltb (p c) (p from) then from else c)
Candidate-step p limit from bound c h (inl (e, small)) = elim (dec_lt limit (p from)) [
  | no low ↦
      let kept : leb (p from) limit ≡ true = ground arith in
      rw kept (inl (e, λ j hj hb. ground (arith, small j)))
  | yes high ↦
      let not_kept : leb (p from) limit ≡ false = ground arith in
      let none_yet : (c == bound) ≡ true = ground arith in
      rw (not_kept, none_yet)
        (inr (record {
          low = omega arith;
          high = h;
          above = high;
          greatest = λ j hj hb. ground (arith, small j);
          last = λ j hj hb. omega (arith, small j hj hb);
        }))
]
Candidate-step p limit from bound c h (inr g) = elim (dec_lt (p c) (p from)) [
  | no kept ↦
      let same : (if leb (p from) limit
            then c
            else if c == bound || ltb (p c) (p from)
            then from
            else c)
          ≡ c =
        ground (arith, g.high) in
      rw same (
        inr (record {
          low = omega (arith, g.low);
          high = g.high;
          above = g.above;
          greatest = λ j hj hb. ground (arith, g.greatest j);
          last = g.last;
        }))
  | yes greater ↦
      let taken : (if leb (p from) limit
            then c
            else if c == bound || ltb (p c) (p from)
            then from
            else c)
          ≡ from =
        ground (arith, g.above) in
      rw taken (
        inr (record {
          low = omega arith;
          high = h;
          above = omega (arith, g.above);
          greatest = λ j hj hb. ground (arith, g.greatest j);
          last = λ j hj hb. omega (arith, g.greatest j hj hb);
        }))
]

evict_loop-Candidate :
    (entries : List Entry) (bound limit from c : ℕ)
    → from ≤ bound
    → Candidate (priority_at entries) limit from bound c
    → Candidate (priority_at entries) limit 0 bound (evict_loop entries bound limit from c)
unfolding evict_loop
evict_loop-Candidate entries bound limit zero c h k = k
evict_loop-Candidate entries bound limit (suc from) c h k =
    evict_loop-Candidate entries bound limit from _ (omega arith)
      (Candidate-step (priority_at entries) limit from bound c (omega arith) k)

-- what `replace_lower_priority` computes first
abbrev evictee : TxQueue → ℕ → ℕ
evictee q limit = evict_loop q.entries q.count limit q.count q.count

evictee-Candidate :
    (q : TxQueue) (limit : ℕ) → Candidate (priority_at q.entries) limit 0 q.count (evictee q limit)
evictee-Candidate q limit =
    evict_loop-Candidate q.entries q.count limit q.count q.count (omega arith)
      (inl (refl, λ j lo hi. absurd (omega arith)))

-- Entries in use read the same in the array and in the list.
Candidate-contents :
    (q : TxQueue) (limit c : ℕ)
    → Candidate (priority_at q.entries) limit 0 q.count c
    → Candidate (priority_at (contents q)) limit 0 q.count c
Candidate-contents q limit c (inl (e, small)) =
    inl (e, λ j lo hi. ground (arith, get_or-take q.count q.entries j zero_entry hi, small j lo hi))
Candidate-contents q limit c (inr g) =
    let same = λ (j : ℕ) (h : j < q.count).
      ap (λ (e : Entry). e.priority) (get_or-take q.count q.entries j zero_entry h) in
    inr (record {
      low = g.low;
      high = g.high;
      above = omega (arith, same c g.high, g.above);
      greatest = λ j lo hi. omega (arith, same j hi, same c g.high, g.greatest j lo hi);
      last = λ j lo hi. omega (arith, same j hi, same c g.high, g.last j lo hi);
    })

pub replace_lower_priority-IsValid :
    (q : TxQueue) (f : Frame) (p : ℕ) → IsValid q → IsValid (replace_lower_priority q f p).1
unfolding replace_lower_priority
replace_lower_priority-IsValid q f p v = ground (
  arith,
  length-set (shift_loop q.entries (q.count - 1 - evictee q p) (evictee q p)) (q.count - 1)
      (record { frame = f; priority = p }),
  length-shift_loop (q.count - 1 - evictee q p) (evictee q p) q.entries,
)

-- the array after the shift and the write of the last entry
contents-evict :
    (q : TxQueue) (e : Entry) (c : ℕ)
    → IsValid q
    → c < q.count
    → take q.count (set (shift_loop q.entries (q.count - 1 - c) c) (q.count - 1) e)
      ≡ remove_at c (contents q) ++ e ∷ []
contents-evict q e c v h =
    let back : q.count ≡ suc (q.count - 1) = omega arith in
    let shifted = take-shift_loop (q.count - 1) c q.entries (omega arith) (omega arith) in
    let long = length-shift_loop (q.count - 1 - c) c q.entries in
    let written =
      take-set (q.count - 1) (shift_loop q.entries (q.count - 1 - c) c) e (omega arith) in
    ground arith

-- On a valid queue, `replace_lower_priority` succeeds exactly for a valid priority, a full queue
-- and some entry that is less urgent than the frame. It then evicts the newest entry of the least
-- urgent priority, keeps the others in order and puts the frame behind them. Otherwise it returns
-- false and changes nothing.
pub replace_lower_priority_lem :
    (q : TxQueue) (f : Frame) (p : ℕ)
    → IsValid q
    → let (sent, q') = replace_lower_priority q f p in
      ((p < priority_count)
        × (q.count ≡ capacity)
        × (sent ≡ true)
        × (c : ℕ) × IsLastGreatest (priority_at (contents q)) p 0 q.count c
        × (contents q' ≡ remove_at c (contents q) ++ record { frame = f; priority = p } ∷ []))
      ⊎ (((priority_count ≤ p)
            ⊎ ((q.count ≢ capacity) ⊎ ((j : ℕ) → j < q.count → priority_at (contents q) j ≤ p)))
          × (sent ≡ false)
          × (q' ≡ q))
unfolding replace_lower_priority
replace_lower_priority_lem q f p v = elim (dec_lt p priority_count) [
  | no bad ↦ inr (inl (omega arith), ground arith, ground arith)
  | yes good ↦ elim (ℕ_discrete q.count capacity) [
    | no room ↦ inr (inr (inl room), ground arith, ground arith)
    | yes full ↦ elim (Candidate-contents q p (evictee q p) (evictee-Candidate q p)) [
      | inl (e, small) ↦
          inr (inr (inr (λ j hj. small j (omega arith) hj)), ground arith, ground arith)
      | inr g ↦
          let high = g.high in
          inl (
            good,
            full,
            ground arith,
            evictee q p,
            g,
            ground (
              arith,
              contents-evict q (record { frame = f; priority = p }) (evictee q p) v g.high,
            ),
          )
    ]
  ]
]

-- Every operation keeps the transmit queue's invariant: eight slots, at most eight of them in use.
pub queue-IsValid :
    (q : TxQueue) (f : Frame) (p i : ℕ)
    → IsValid q
    → IsValid (push q f p).1 × IsValid (remove q i) × IsValid (replace_lower_priority q f p).1
queue-IsValid q f p i v =
    (push-IsValid q f p v, remove-IsValid q i v, replace_lower_priority-IsValid q f p v)
