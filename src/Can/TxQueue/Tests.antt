-- ===== src/Can/TxQueue/Tests.antt =====
-- Runs and instances of the transmit queue's theorems, on a queue of three frames and a full one.
use beamforming_software.Prelude.{
  ℕ, ◌<◌, ◌≤◌, ◌≡◌, ◌≢◌, ◌⊎◌, refl, arith, true, false, [], ◌∷◌, ◌++◌, replicate,
}
use beamforming_software.Can.Protocol.{Frame, zero_frame}
use beamforming_software.Can.TxQueue.{
  Entry, zero_entry, TxQueue, capacity, priority_count, priority_error, priority_ack,
  priority_requested_status, priority_at, peek_highest, replace_lower_priority,
}
use beamforming_software.Can.TxQueue.Contents.{IsValid, contents, remove_at}
use beamforming_software.Can.TxQueue.Evict.{IsLastGreatest, replace_lower_priority_lem}

abbrev entry_of : ℕ → ℕ → Entry
entry_of n p = record { frame = record zero_frame { id = n }; priority = p }

abbrev three : TxQueue
three = record {
  entries =
      entry_of 1 priority_requested_status
      ∷ entry_of 2 priority_ack
      ∷ entry_of 3 priority_ack
      ∷ replicate 5 zero_entry;
  count = 3;
}

abbrev full : TxQueue
full = record {
  entries =
      entry_of 1 priority_ack
      ∷ entry_of 2 priority_requested_status
      ∷ entry_of 3 priority_requested_status
      ∷ replicate 5 (entry_of 4 priority_ack);
  count = 8;
}

abbrev urgent : Frame
urgent = record zero_frame { id = 9 }

three-IsValid : IsValid three
three-IsValid = omega arith

full-IsValid : IsValid full
full-IsValid = omega arith

peek_run : peek_highest three zero_frame 7 ≡ (true, record zero_frame { id = 2 }, 1)
unfolding peek_highest
peek_run = refl

evict_run :
    (replace_lower_priority full urgent priority_error).1.entries
    ≡ entry_of 1 priority_ack
        ∷ entry_of 2 priority_requested_status
        ∷ replicate 5 (entry_of 4 priority_ack)
      ++ entry_of 9 priority_error ∷ []
unfolding replace_lower_priority
evict_run = refl

replace_lower_priority_lem_example :
    let (sent, q') = replace_lower_priority full urgent 0 in
    ((0 < priority_count)
      × (8 ≡ capacity)
      × (sent ≡ true)
      × (c : ℕ) × IsLastGreatest (priority_at (contents full)) 0 0 8 c
      × (contents q' ≡ remove_at c (contents full) ++ record { frame = urgent; priority = 0 } ∷ []))
    ⊎ (((priority_count ≤ 0)
          ⊎ ((8 ≢ capacity) ⊎ ((j : ℕ) → j < 8 → priority_at (contents full) j ≤ 0)))
        × (sent ≡ false)
        × (q' ≡ full))
replace_lower_priority_lem_example = replace_lower_priority_lem full urgent 0 full-IsValid
