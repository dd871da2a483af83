-- ===== src/Examples/Targets.antt =====
-- Targets at concrete inputs.

use owtf.Base.{String, refl, true, false, none, some, List, [], ◌∷◌, arith}
use owtf.Db.Memory.{memory, memory_files}
use owtf.Examples.Data.{target_at}
use owtf.Exceptions.{ok}
use owtf.Sessions.Deletion.{IsConsistent}
use owtf.Targets.{Managed, Paths, add_target}
use owtf.Targets.Adding.{add_target-IsConsistent}
use owtf.Targets.Derive.{Net}

abbrev toy_net : Net
toy_net = record {
  urlparse =
      λ url. some (record { hostname = some "b"; path = ""; scheme = "http"; port = ok none });
  is_address = λ host. false;
  gethostbyname = λ host. some "1.2.3.4";
  ip_chunks = λ ip. ip ∷ [];
  replace = λ text old new. new;
}

abbrev toy_paths : Paths
toy_paths = record { output_path = "/out"; join = λ a b. b; target_dir = λ url. url }

abbrev show : List String → String
show ips = "['1.2.3.4']"

abbrev make_dirs : String → List String → List String
make_dirs dir folders = dir ∷ folders

-- One target in one session.
abbrev managed : Managed memory memory memory memory_files toy_net toy_paths show make_dirs
managed = record {
  store = record {
    session_rows = record {
      contents = record { id = 1; name = "first"; active = true } ∷ [];
      counter = 2;
    };
    target_rows = record { contents = target_at 1 ∷ []; counter = 2 };
    links = (1, 1) ∷ [];
    queue = record { contents = []; counter = 1 };
    folders = [];
  };
  current = record { target_id = none; target_config = none; path_config = none };
}

add_target-IsConsistent_example :
    IsConsistent memory memory memory memory_files toy_paths.target_dir
      (add_target memory memory memory memory_files toy_net toy_paths show make_dirs "http://b" none
        managed).1.store
add_target-IsConsistent_example =
    add_target-IsConsistent memory memory memory memory_files toy_net toy_paths show make_dirs
      "http://b" none managed refl
      (record { linked = λ t there. ground arith; different = (tt, tt) })
