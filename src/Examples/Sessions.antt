-- ===== src/Examples/Sessions.antt =====
-- The theorems on sessions, on two sessions and two targets.

use owtf.Base.{
  any, ◌↔◌, ℕ, String, ◌≡◌, refl, ◌≢◌, ◌⊎◌, Bool, true, false, none, some, [], ◌∷◌, arith,
}
use owtf.Db.Memory.{memory, memory_files}
use owtf.Db.Models.{Session}
use owtf.Examples.Data.{target_at}
use owtf.Exceptions.{ok}
use owtf.Sessions.{
  Store, delete_session, add_target_to_session, remove_target_from_session, get_active,
  session_required, is_link, delete_targets, targets_of, delete_target, ensure_default_session,
  lookup_both,
}
use owtf.Sessions.Active.{rows_of, others, delete_session_lem, get_active-delete_session}
use owtf.Sessions.Deletion.{IsConsistent, is_there}
use owtf.Sessions.Orphans.{IsAlone, delete_session-IsConsistent}
use owtf.Sessions.Membership.{IsUnlinked, remove_target_from_session-IsConsistent}

abbrev session_of : ℕ → String → Bool → Session
session_of i n a = record { id = i; name = n; active = a }

-- The second session is active; the first target is in both sessions.
abbrev two_sessions : Store memory memory memory memory_files
two_sessions = record {
  session_rows = record {
    contents = session_of 1 "first" false ∷ session_of 2 "second" true ∷ [];
    counter = 3;
  };
  target_rows = record { contents = target_at 1 ∷ target_at 2 ∷ []; counter = 3 };
  links = (1, 1) ∷ (1, 2) ∷ (2, 2) ∷ [];
  queue = record { contents = []; counter = 1 };
  folders = "/out/http://a" ∷ [];
}

abbrev dir : String → String
dir url = "/out/http://a"

two_sessions-IsConsistent : IsConsistent memory memory memory memory_files dir two_sessions
two_sessions-IsConsistent = record { linked = λ t there. ground arith; different = ground arith }

abbrev after_delete : Store memory memory memory memory_files
after_delete = record {
  session_rows = record { contents = session_of 1 "first" false ∷ []; counter = 3 };
  target_rows = record { contents = target_at 1 ∷ []; counter = 3 };
  links = (1, 1) ∷ [];
  queue = record { contents = []; counter = 1 };
  folders = [];
}

abbrev after_removal : Store memory memory memory memory_files
after_removal = record two_sessions {
  target_rows = record { contents = target_at 1 ∷ []; counter = 3 };
  links = (1, 1) ∷ (1, 2) ∷ [];
  folders = [];
}

abbrev after_addition : Store memory memory memory memory_files
after_addition = record two_sessions { links = (1, 1) ∷ (1, 2) ∷ (2, 2) ∷ (2, 1) ∷ [] }

delete_active :
    delete_session memory memory memory memory_files dir 2 two_sessions ≡ ok after_delete
unfolding delete_session delete_targets targets_of delete_target ensure_default_session
delete_active = refl

remove_second :
    remove_target_from_session memory memory memory memory_files dir 2 none two_sessions
    ≡ ok after_removal
unfolding remove_target_from_session lookup_both session_required delete_target get_active
remove_second = refl

add_second :
    add_target_to_session memory memory memory memory_files dir 2 (some 1) two_sessions
    ≡ ok after_addition
unfolding add_target_to_session lookup_both session_required
add_second = refl

delete_session_example :
    ((others memory memory memory memory_files dir 2 two_sessions ≢ [])
      × (rows_of memory memory memory memory_files dir after_delete
          ≡ others memory memory memory memory_files dir 2 two_sessions))
    ⊎ ((others memory memory memory memory_files dir 2 two_sessions ≡ [])
        × (id : ℕ) × (rows_of memory memory memory memory_files dir after_delete
            ≡ record { id = id; name = "default session"; active = true } ∷ []))
delete_session_example =
    delete_session_lem memory memory memory memory_files dir 2 two_sessions after_delete
      delete_active

get_active-delete_session_example :
    get_active memory memory memory memory_files dir after_delete ≡ none
get_active-delete_session_example =
    get_active-delete_session memory memory memory memory_files dir 2 two_sessions after_delete
      (ground arith) (λ e. absurd (cc)) delete_active

delete_session-IsConsistent_example :
    IsConsistent memory memory memory memory_files dir after_delete
    × ((t : ℕ)
        → (is_there memory memory memory memory_files dir t after_delete ≡ true) ↔ (
            (is_there memory memory memory memory_files dir t two_sessions ≡ true)
            × ¬ IsAlone memory memory memory memory_files dir t 2 two_sessions))
delete_session-IsConsistent_example =
    delete_session-IsConsistent memory memory memory memory_files dir 2 two_sessions after_delete
      two_sessions-IsConsistent delete_active

remove_target_from_session-IsConsistent_example :
    IsConsistent memory memory memory memory_files dir after_removal
    × (id : ℕ) × (session_required memory memory memory memory_files dir none two_sessions
        ≡ some id)
    × (any (is_link 2 id) two_sessions.links ≡ true)
    × IsUnlinked memory memory memory memory_files dir 2 id two_sessions after_removal
remove_target_from_session-IsConsistent_example =
    remove_target_from_session-IsConsistent memory memory memory memory_files dir 2 none
      two_sessions after_removal two_sessions-IsConsistent remove_second
