-- ===== src/Can/TxQueue/Contents.antt =====
-- The transmit queue as the list of its entries, oldest first.
use beamforming_software.Prelude.{
  ℕ, dec_lt, u8, zero, suc, ◌+◌, ◌-◌, ◌≤◌, ◌<◌, ◌≡◌, refl, ap, ◌∙◌, arith, true, false, List, [],
  ◌∷◌, ◌++◌, length, length-set, length-take, get_or, set, take, ◌⊎◌, inl, inr,
}
use beamforming_software.Can.Protocol.{Frame}
use beamforming_software.Can.TxQueue.{
  TxQueue, Entry, zero_entry, capacity, init, push, remove, shift_loop, priority_count,
}

pub record IsValid (q : TxQueue) : Type 0 where
  pub slots : length q.entries ≡ capacity
  pub bounded : q.count ≤ capacity

abbrev pub contents : TxQueue → List Entry
contents q = take q.count q.entries

pub length-contents : (q : TxQueue) → IsValid q → length (contents q) ≡ q.count
length-contents q v = length-take q.count q.entries (omega arith)

-- The list without its entry of an index.
abbrev pub remove_at : ℕ → List Entry → List Entry
remove_at i [] = []
remove_at zero (x ∷ xs) = xs
remove_at (suc i) (x ∷ xs) = x ∷ remove_at i xs

pub init-IsValid : (q : TxQueue) → IsValid (init q) × (contents (init q) ≡ [])
unfolding init
init-IsValid q = (omega arith, refl)

pub take-set :
    (n : ℕ) (xs : List Entry) (e : Entry)
    → n < length xs
    → take (suc n) (set xs n e) ≡ take n xs ++ e ∷ []
take-set n [] e h = absurd (omega arith)
take-set zero (x ∷ xs) e h = refl
take-set (suc n) (x ∷ xs) e h = ap (λ ys. x ∷ ys) (take-set n xs e (omega arith))

pub push-IsValid : (q : TxQueue) (f : Frame) (p : ℕ) → IsValid q → IsValid (push q f p).1
unfolding push
push-IsValid q f p v =
    ground (arith, length-set q.entries q.count (record { frame = f; priority = p }))

-- On a valid queue a push with a valid priority puts its entry behind all others while there is
-- room; without room, or with an invalid priority, it returns false and changes nothing.
pub push_lem :
    (q : TxQueue) (f : Frame) (p : ℕ)
    → IsValid q
    → let (sent, q') = push q f p in
      ((p < priority_count)
        × (q.count < capacity)
        × (sent ≡ true)
        × (contents q' ≡ contents q ++ record { frame = f; priority = p } ∷ []))
      ⊎ (((priority_count ≤ p) ⊎ (q.count ≡ capacity)) × (sent ≡ false) × (q' ≡ q))
unfolding push
push_lem q f p v = elim (dec_lt p priority_count) [
  | no bad ↦ inr (inl (omega arith), ground arith, ground arith)
  | yes good ↦ elim (dec_lt q.count capacity) [
    | no full ↦ inr (inr (omega arith), ground arith, ground arith)
    | yes room ↦
        let next : u8 (q.count + 1) ≡ suc q.count = omega arith in
        inl (
          good,
          room,
          ground arith,
          ground (
            arith,
            next,
            take-set q.count q.entries (record { frame = f; priority = p }) (omega arith),
          ),
        )
  ]
]

-- the shifting loop below a cell that it does not reach
shift_loop-cons :
    (n i : ℕ) (x : Entry) (xs : List Entry) → shift_loop (x ∷ xs) n (suc i) ≡ x ∷ shift_loop xs n i
unfolding shift_loop
shift_loop-cons zero i x xs = refl
shift_loop-cons (suc n) i x xs =
    let next : suc i + 1 ≡ suc (i + 1) = omega arith in
    rw next (shift_loop-cons n (i + 1) x (set xs i (get_or xs (i + 1) zero_entry)))

shift_loop-zero :
    (n : ℕ) (x : Entry) (xs : List Entry)
    → n ≤ length xs
    → take n (shift_loop (x ∷ xs) n 0) ≡ take n xs
unfolding shift_loop
shift_loop-zero zero x xs h = refl
shift_loop-zero (suc n) x [] h = absurd (omega arith)
shift_loop-zero (suc n) x (y ∷ ys) h =
    rw (shift_loop-cons n 0 y (y ∷ ys)) (ap (λ zs. y ∷ zs) (shift_loop-zero n y ys (omega arith)))

pub length-shift_loop : (n i : ℕ) (xs : List Entry) → length (shift_loop xs n i) ≡ length xs
unfolding shift_loop
length-shift_loop zero i xs = refl
length-shift_loop (suc n) i xs =
    length-shift_loop n (i + 1) _ ∙ length-set xs i (get_or xs (i + 1) zero_entry)

-- The loop drops the entry that it starts at, and keeps the others in order.
pub take-shift_loop :
    (m i : ℕ) (xs : List Entry)
    → i ≤ m
    → m < length xs
    → take m (shift_loop xs (m - i) i) ≡ remove_at i (take (suc m) xs)
take-shift_loop m i [] h k = absurd (omega arith)
take-shift_loop m zero (x ∷ xs) h k =
    let all : m - 0 ≡ m = omega arith in rw all (shift_loop-zero m x xs (omega arith))
take-shift_loop zero (suc i) (x ∷ xs) h k = absurd (omega arith)
take-shift_loop (suc m) (suc i) (x ∷ xs) h k =
    let less : suc m - suc i ≡ m - i = omega arith in
    rw (less, shift_loop-cons (m - i) i x xs)
      (ap (λ zs. x ∷ zs) (take-shift_loop m i xs (omega arith) (omega arith)))

pub remove-IsValid : (q : TxQueue) (i : ℕ) → IsValid q → IsValid (remove q i)
unfolding remove
remove-IsValid q i v = ground (arith, length-shift_loop (q.count - 1 - i) i q.entries)

-- On a valid queue `remove` takes the entry of an index in use out of the list, whose order it
-- keeps, and does nothing at any other index.
pub remove_lem :
    (q : TxQueue) (i : ℕ)
    → IsValid q
    → ((i < q.count)
        × (contents (remove q i) ≡ remove_at i (contents q))
        × (suc (remove q i).count ≡ q.count))
      ⊎ ((q.count ≤ i) × (remove q i ≡ q))
unfolding remove
remove_lem q i v = elim (dec_lt i q.count) [
  | no out ↦ inr (omega arith, ground arith)
  | yes inside ↦
      let shifted = take-shift_loop (q.count - 1) i q.entries (omega arith) (omega arith) in
      let less : u8 (q.count - 1) ≡ q.count - 1 = omega arith in
      let back : suc (q.count - 1) ≡ q.count = omega arith in
      inl (inside, ground arith, ground arith)
]
