-- ===== src/Examples/FileLock.antt =====
-- Examples of owtf.FileLock.

use owtf.Base.{refl, true, false, some, List, [], ◌∷◌}
use owtf.FileLock.Acquire.{FileLock, Attempt, created, eexist}
use owtf.FileLock.System.{System, creating, move, create, here, next, idle}
use owtf.FileLock.Exclusion.{Inv, Reach-Inv}

abbrev lock : FileLock
lock = record { is_locked = false; timeout = some 10 }

-- The file is there at time 3, and gone at the next attempt.
abbrev answers : List Attempt
answers = record { answer = eexist; now = 3 } ∷ record { answer = created; now = 4 } ∷ []

abbrev one_inside : System
one_inside = record { file = true; stage = move (λ _. idle) 4 creating }

exclusion_example : Inv one_inside
exclusion_example = Reach-Inv one_inside (next here (create 4 refl refl refl)) (refl, tt)
