-- ===== src/Can/TxQueue/Select.antt =====
-- Which entry the transmit queue sends next: the oldest of those with the least priority number.
use beamforming_software.Prelude.{
  ℕ, zero, suc, ◌+◌, ◌-◌, ◌≤◌, ◌<◌, ◌≡◌, ◌≢◌, arith, true, false, List, get_or, if◌then◌else◌, ltb,
  ◌⊎◌, inl, inr, ℕ_discrete, dec_lt, get_or-take, lt→ltb, sym, ap,
}
use beamforming_software.Can.Protocol.{Frame}
use beamforming_software.Can.TxQueue.{
  TxQueue, Entry, zero_entry, priority_at, select_loop, peek_highest, get_highest_priority,
}
use beamforming_software.Can.TxQueue.Contents.{IsValid, contents}

-- `s` is the first of the least among the first `bound` values of `p`.
pub record IsFirstLeast (p : ℕ → ℕ) (bound s : ℕ) : Type 0 where
  pub inside : s < bound
  pub least : (j : ℕ) → j < bound → p s ≤ p j
  pub first : (j : ℕ) → j < s → p s < p j

-- The first of the least is unique.
pub IsFirstLeast-unique :
    (p : ℕ → ℕ) (bound s t : ℕ) → IsFirstLeast p bound s → IsFirstLeast p bound t → s ≡ t
IsFirstLeast-unique p bound s t hs ht =
    ground (arith, hs.first t, ht.first s, hs.least t, ht.least s)

IsFirstLeast-step :
    (p : ℕ → ℕ) (index s : ℕ)
    → IsFirstLeast p index s
    → IsFirstLeast p (index + 1) (if ltb (p index) (p s) then index else s)
IsFirstLeast-step p index s h = elim (dec_lt (p index) (p s)) [
  | yes lower ↦
      let taken : ltb (p index) (p s) ≡ true = lt→ltb _ _ lower in
      rw taken (record {
        inside = omega arith;
        least = λ j hj. ground (arith, h.least j);
        first = λ j hj. ground (arith, h.least j);
      })
  | no higher ↦
      let kept : ltb (p index) (p s) ≡ false = ground arith in
      rw kept (record {
        inside = omega (arith, h.inside);
        least = λ j hj. ground (arith, h.least j);
        first = h.first;
      })
]

-- The loop keeps the first of the least of the entries that it has passed.
select_loop-IsFirstLeast :
    (entries : List Entry) (rounds index s : ℕ)
    → IsFirstLeast (priority_at entries) index s
    → IsFirstLeast (priority_at entries) (index + rounds) (select_loop entries rounds index s)
unfolding select_loop
select_loop-IsFirstLeast entries zero index s h =
    let all : index + 0 ≡ index = omega arith in rw all h
select_loop-IsFirstLeast entries (suc rounds) index s h =
    let more : index + suc rounds ≡ index + 1 + rounds = omega arith in
    rw more (
      select_loop-IsFirstLeast entries rounds (index + 1) _
        (IsFirstLeast-step (priority_at entries) index s h))

IsFirstLeast-ext :
    (p q : ℕ → ℕ) (bound s : ℕ)
    → ((j : ℕ) → j < bound → p j ≡ q j)
    → IsFirstLeast p bound s
    → IsFirstLeast q bound s
IsFirstLeast-ext p q bound s e h = record {
  inside = h.inside;
  least = λ j hj. omega (arith, e j hj, e s h.inside, h.least j hj);
  first = λ j hj. omega (arith, e j (omega (arith, h.inside)), e s h.inside, h.first j hj);
}

-- what both selecting operations compute first
abbrev selected : TxQueue → ℕ
selected q = select_loop q.entries (q.count - 1) 1 0

selected-IsFirstLeast :
    (q : TxQueue)
    → IsValid q
    → q.count ≢ 0
    → IsFirstLeast (priority_at (contents q)) q.count (selected q)
selected-IsFirstLeast q v ne =
    let start : IsFirstLeast (priority_at q.entries) 1 0 = record {
      inside = omega arith;
      least = λ j hj. ground arith;
      first = λ j hj. absurd (omega arith);
    } in
    let all : 1 + (q.count - 1) ≡ q.count = omega arith in
    let found = select_loop-IsFirstLeast q.entries (q.count - 1) 1 0 start in
    IsFirstLeast-ext (priority_at q.entries) (priority_at (contents q)) q.count (selected q)
      (λ j hj. ap (λ e. e.priority) (sym (get_or-take q.count q.entries j zero_entry hj)))
      (rw all at found)

-- On a valid queue, `peek_highest` finds nothing exactly if the queue is empty, and then leaves its
-- outputs; otherwise it gives the index of the oldest entry of the least priority number, and that
-- entry's frame.
pub peek_highest_lem :
    (q : TxQueue) (f0 : Frame) (i0 : ℕ)
    → IsValid q
    → ((q.count ≡ 0) × (peek_highest q f0 i0 ≡ (false, f0, i0)))
      ⊎ ((q.count ≢ 0)
          × (i : ℕ) × IsFirstLeast (priority_at (contents q)) q.count i
          × (peek_highest q f0 i0 ≡ (true, (get_or (contents q) i zero_entry).frame, i)))
unfolding peek_highest
peek_highest_lem q f0 i0 v = elim (ℕ_discrete q.count 0) [
  | yes e ↦ inl (e, ground arith)
  | no ne ↦
      let h = selected-IsFirstLeast q v ne in
      inr (
        ne,
        selected q,
        h,
        ground (arith, get_or-take q.count q.entries (selected q) zero_entry h.inside),
      )
]

-- `get_highest_priority` reports the priority of the entry that `peek_highest` selects.
pub get_highest_priority_lem :
    (q : TxQueue) (f0 : Frame) (i0 p0 : ℕ)
    → IsValid q
    → let (found, frame, i) = peek_highest q f0 i0 in
      get_highest_priority q p0 ≡ (found, if found then priority_at (contents q) i else p0)
unfolding peek_highest get_highest_priority
get_highest_priority_lem q f0 i0 p0 v = elim (ℕ_discrete q.count 0) [
  | yes e ↦ ground arith
  | no ne ↦
      let h = selected-IsFirstLeast q v ne in
      ground (arith, get_or-take q.count q.entries (selected q) zero_entry h.inside)
]
