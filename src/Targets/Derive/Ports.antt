-- ===== src/Targets/Derive/Ports.antt =====
-- The port of a target's address (owtf/managers/target.py).

use owtf.Base.{String, ◌≡◌, refl, ◌∙◌, false, [], ◌∷◌, str_eq, if◌then◌else◌}
use owtf.Base.Text.{cat, split_on, has_char, split_on-none, split_on-cat}
use owtf.Targets.Derive.{split_port}

-- A host and a port that are written with a colon between them are read back, whatever the scheme; a
-- host without a colon is read as it is, with the port of the scheme.
pub split_port-cat :
    (scheme host port : String)
    → has_char 58 host ≡ false
    → has_char 58 port ≡ false
    → (split_port scheme (cat host (cat ":" port)) ≡ (host, port))
      × (split_port scheme host ≡ (host, if str_eq scheme "https" then "443" else "80"))
unfolding split_port
split_port-cat scheme host port h p =
    let both : split_on 58 (cat host (cat ":" port)) ≡ host ∷ port ∷ [] =
      split_on-cat 58 host port h ":" refl ∙ rw (split_on-none 58 port p) refl in
    (rw (split_port, both) refl, rw (split_port, split_on-none 58 host h) refl)
