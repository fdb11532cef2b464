-- ===== src/Platform/Pins/Throughout.antt =====
-- A test that holds before every call of a sequence.
use beamforming_software.Prelude.{◌≡◌, arith, Bool, true, ◌&&◌, List, [], ◌∷◌, ◌++◌}
use beamforming_software.Platform.Pins.{Asked, Call, make_call, make_calls}

abbrev pub throughout : (Asked → Call → Bool) → List Call → Asked → Bool
throughout test [] s = true
throughout test (call ∷ calls) s = test s call && throughout test calls (make_call call s)

-- It holds in the state that the calls before it leave.
pub throughout-state :
    (test : Asked → Call → Bool) (before after : List Call) (call : Call) (s : Asked)
    → throughout test (before ++ call ∷ after) s ≡ true
    → test (make_calls before s) call ≡ true
throughout-state test [] after call s h = ground arith
throughout-state test (c ∷ cs) after call s h =
    throughout-state test cs after call (make_call c s) (ground arith)
