-- ===== src/Can/TxQueue/Order.antt =====
-- The order in which the entries of the transmit queue leave it: by priority, and in the order of
-- their arrival within one priority.
use beamforming_software.Prelude.{
  ℕ, zero, suc, ◌≤◌, ◌<◌, ◌≡◌, refl, ap, ◌∙◌, arith, List, [], ◌∷◌, ◌++◌, length, get_or,
  if◌then◌else◌, leb, Bool-cases, inl, inr,
}
use beamforming_software.Can.TxQueue.{Entry, zero_entry, priority_at}
use beamforming_software.Can.TxQueue.Contents.{remove_at}
use beamforming_software.Can.TxQueue.Select.{IsFirstLeast}
use beamforming_software.Can.TxQueue.Evict.{IsLastGreatest}

-- An older entry goes before those of its priority,
abbrev pub insert_first : Entry → List Entry → List Entry
insert_first x [] = x ∷ []
insert_first x (y ∷ ys) = if leb x.priority y.priority then x ∷ y ∷ ys else y ∷ insert_first x ys

-- and a new one behind them.
abbrev pub insert_last : Entry → List Entry → List Entry
insert_last e [] = e ∷ []
insert_last e (y ∷ ys) = if leb y.priority e.priority then y ∷ insert_last e ys else e ∷ y ∷ ys

-- the stable order
unfoldable pub by_urgency : List Entry → List Entry
by_urgency [] = []
by_urgency (x ∷ xs) = insert_first x (by_urgency xs)

insert_comm :
    (x e : Entry) (l : List Entry)
    → insert_first x (insert_last e l) ≡ insert_last e (insert_first x l)
insert_comm x e [] = ground arith
insert_comm x e (y ∷ ys) = ground (arith, insert_comm x e ys)

-- An entry that arrives goes behind those of its priority.
pub by_urgency-append :
    (xs : List Entry) (e : Entry) → by_urgency (xs ++ e ∷ []) ≡ insert_last e (by_urgency xs)
unfolding by_urgency
by_urgency-append [] e = refl
by_urgency-append (x ∷ xs) e =
    ap (insert_first x) (by_urgency-append xs e) ∙ insert_comm x e (by_urgency xs)

abbrev AtLeast : ℕ → List Entry → Type 0
AtLeast b [] = Unit {0}
AtLeast b (x ∷ xs) = (b ≤ x.priority) × AtLeast b xs

abbrev Below : ℕ → List Entry → Type 0
Below b [] = Unit {0}
Below b (x ∷ xs) = (x.priority < b) × Below b xs

AtLeast-insert_first :
    (b : ℕ) (x : Entry) (l : List Entry)
    → b ≤ x.priority
    → AtLeast b l
    → AtLeast b (insert_first x l)
AtLeast-insert_first b x [] h a = (h, tt)
AtLeast-insert_first b x (y ∷ ys) h a = elim (Bool-cases (leb x.priority y.priority)) [
  | inl e ↦ rw e (h, a)
  | inr e ↦ rw e (a.0, AtLeast-insert_first b x ys h a.1)
]

Below-insert_first :
    (b : ℕ) (x : Entry) (l : List Entry) → x.priority < b → Below b l → Below b (insert_first x l)
Below-insert_first b x [] h a = (h, tt)
Below-insert_first b x (y ∷ ys) h a = elim (Bool-cases (leb x.priority y.priority)) [
  | inl e ↦ rw e (h, a)
  | inr e ↦ rw e (a.0, Below-insert_first b x ys h a.1)
]

AtLeast-by_urgency :
    (b : ℕ) (xs : List Entry)
    → ((j : ℕ) → j < length xs → b ≤ priority_at xs j)
    → AtLeast b (by_urgency xs)
unfolding by_urgency
AtLeast-by_urgency b [] h = tt
AtLeast-by_urgency b (x ∷ xs) h =
    AtLeast-insert_first b x (by_urgency xs) (h 0 (omega arith))
      (AtLeast-by_urgency b xs (λ j hj. h (suc j) (omega arith)))

Below-by_urgency :
    (b : ℕ) (xs : List Entry)
    → ((j : ℕ) → j < length xs → priority_at xs j < b)
    → Below b (by_urgency xs)
unfolding by_urgency
Below-by_urgency b [] h = tt
Below-by_urgency b (x ∷ xs) h =
    Below-insert_first b x (by_urgency xs) (h 0 (omega arith))
      (Below-by_urgency b xs (λ j hj. h (suc j) (omega arith)))

insert_first-AtLeast :
    (x : Entry) (l : List Entry) → AtLeast x.priority l → insert_first x l ≡ x ∷ l
insert_first-AtLeast x [] a = refl
insert_first-AtLeast x (y ∷ ys) a = let first = a.0 in ground arith

insert_first-Below :
    (x : Entry) (l : List Entry) → Below x.priority l → insert_first x l ≡ l ++ x ∷ []
insert_first-Below x [] a = refl
insert_first-Below x (y ∷ ys) a = let first = a.0 in ground (arith, insert_first-Below x ys a.1)

insert_first-append :
    (x v : Entry) (l : List Entry)
    → x.priority ≤ v.priority
    → insert_first x (l ++ v ∷ []) ≡ insert_first x l ++ v ∷ []
insert_first-append x v [] h = ground arith
insert_first-append x v (y ∷ ys) h = ground (arith, insert_first-append x v ys h)

-- The oldest of the least priority number is the first to leave.
pub by_urgency-IsFirstLeast :
    (xs : List Entry) (i : ℕ)
    → IsFirstLeast (priority_at xs) (length xs) i
    → by_urgency xs ≡ get_or xs i zero_entry ∷ by_urgency (remove_at i xs)
unfolding by_urgency
by_urgency-IsFirstLeast [] i h = absurd (omega (arith, h.inside))
by_urgency-IsFirstLeast (x ∷ xs) zero h =
    insert_first-AtLeast x (by_urgency xs)
      (AtLeast-by_urgency x.priority xs (λ j hj. h.least (suc j) (omega arith)))
by_urgency-IsFirstLeast (x ∷ xs) (suc i) h =
    let tail : IsFirstLeast (priority_at xs) (length xs) i = record {
      inside = omega (arith, h.inside);
      least = λ j hj. h.least (suc j) (omega arith);
      first = λ j hj. h.first (suc j) (omega arith);
    } in
    let above : priority_at xs i < x.priority = h.first 0 (omega arith) in
    ap (insert_first x) (by_urgency-IsFirstLeast xs i tail) ∙ ground arith

-- The newest of the greatest priority number is the last to leave.
pub by_urgency-IsLastGreatest :
    (xs : List Entry) (limit c : ℕ)
    → IsLastGreatest (priority_at xs) limit 0 (length xs) c
    → by_urgency xs ≡ by_urgency (remove_at c xs) ++ get_or xs c zero_entry ∷ []
unfolding by_urgency
by_urgency-IsLastGreatest [] limit c h = absurd (omega (arith, h.high))
by_urgency-IsLastGreatest (x ∷ xs) limit zero h =
    insert_first-Below x (by_urgency xs)
      (Below-by_urgency x.priority xs (λ j hj. h.last (suc j) (omega arith) (omega arith)))
by_urgency-IsLastGreatest (x ∷ xs) limit (suc c) h =
    let tail : IsLastGreatest (priority_at xs) limit 0 (length xs) c = record {
      low = omega arith;
      high = omega (arith, h.high);
      above = h.above;
      greatest = λ j lo hi. h.greatest (suc j) (omega arith) (omega arith);
      last = λ j lo hi. h.last (suc j) (omega arith) (omega arith);
    } in
    ap (insert_first x) (by_urgency-IsLastGreatest xs limit c tail)
    ∙ insert_first-append x (get_or xs c zero_entry) (by_urgency (remove_at c xs))
        (h.greatest 0 (omega arith) (omega arith))
