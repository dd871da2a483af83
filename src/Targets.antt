-- ===== src/Targets.antt =====
-- owtf/managers/target.py: what is derived of a target's URL, the current target, and the operations
-- that add and change targets. `delete_target` is in Sessions. Parsing of URLs, name resolution and
-- the conversions of texts are parameters.

pub mod Derive
pub mod Adding
pub mod Listing
use owtf.Base.{
  ℕ, ◌+◌, String, Bool, true, false, Option, none, some, List, [], ◌∷◌, ◌++◌, str_eq, ◌==◌,
  if◌then◌else◌, find_first, any,
}
use owtf.Db.Table.{Table}
use owtf.Db.Files.{Files}
use owtf.Db.Models.{Session, Target, Work}
use owtf.Exceptions.{
  Result, ok, err, attribute_error, flush_error, db_integrity, invalid_target_reference,
  unresolvable_target, ◌>>=◌,
}
use owtf.Sessions.{
  Store, has_session_id, has_target_id, is_link, session_required, add_target_to_session,
}
use owtf.Targets.Derive.{Net, TargetConfig, derive_config_from_url}

-- What get_path_configs makes; os.path.join and the directories are functions of owtf/utils/file.py and
-- owtf/settings.py.
pub record Paths : Type 0 where
  pub output_path : String
  pub join : String → String → String
  pub target_dir : String → String

pub record PathConfig : Type 0 where
  pub host_output : String
  pub port_output : String
  pub url_output : String
  pub partial_url_output_path : String

abbrev pub get_path_configs : Paths → Target → PathConfig
get_path_configs p t =
    let host_output = p.join p.output_path t.host_ip in
    let url_output = p.target_dir t.target_url in
    record {
      host_output = host_output;
      port_output = p.join host_output t.port_number;
      url_output = url_output;
      partial_url_output_path = p.join url_output "partial";
    }

-- The attributes of the target manager.
pub record Current : Type 0 where
  pub target_id : Option ℕ
  pub target_config : Option Target
  pub path_config : Option PathConfig

abbrev pub has_target_url : String → Target → Bool
has_target_url url t = str_eq t.target_url url

-- The row of a new target, in scope by default.
abbrev pub new_target : (show : List String → String) → TargetConfig → ℕ → Target
new_target show c id = record {
  id = id;
  target_url = c.target_url;
  host_name = c.host_name;
  host_path = c.host_path;
  url_scheme = c.url_scheme;
  port_number = c.port_number;
  host_ip = c.host_ip;
  alternative_ips = show c.alternative_ips;
  ip_url = c.ip_url;
  top_domain = c.top_domain;
  top_url = c.top_url;
  scope = true;
}

module _ (sessions : Table Session) (targets : Table Target) (works : Table Work) (files : Files)
    (net : Net) (paths : Paths) (show : List String → String)
    (create_missing_dirs : String → files.State → files.State) where
  abbrev pub T : Type 0
  T = Store sessions targets works files

  -- The tables, and the manager's current target.
  pub record Managed : Type 0 where
    pub store : T
    pub current : Current

  unfoldable pub get_target_config_by_id : ℕ → T → Result Target
  get_target_config_by_id id s = elim (find_first (has_target_id id) (targets.rows s.target_rows)) [
    | none ↦ err invalid_target_reference
    | some t ↦ ok t
  ]

  unfoldable pub get_target_url_for_id : ℕ → T → Result String
  unfolding get_target_config_by_id
  get_target_url_for_id id s = do t ← get_target_config_by_id id s; ok t.target_url

  -- The id changes first, also where the target does not exist.
  unfoldable pub set_target : ℕ → Managed → Result (Unit {0}) × Managed
  unfolding get_target_config_by_id
  set_target id s = elim (get_target_config_by_id id s.store) [
    | err e ↦ (err e, record s { current = record (s.current) { target_id = some id } })
    | ok t ↦ (
      ok tt,
      record s {
        current = record {
          target_id = some id;
          target_config = some t;
          path_config = some (get_path_configs paths t);
        };
      },
    )
  ]

  -- The session that is looked up, as None has no attributes.
  abbrev pub session_of : Option ℕ → T → Option Session
  session_of none s = none
  session_of (some id) s = find_first (has_session_id id) (sessions.rows s.session_rows)

  -- The branch for a URL that is not in the table.
  unfoldable pub add_new : TargetConfig → Option Session → Managed → Result (Unit {0}) × Managed
  unfolding set_target
  add_new c none s = (err flush_error, s)
  add_new c (some r) s =
      let id = targets.next_id s.store.target_rows in
      set_target id (record s {
        store = record (s.store) {
          target_rows = targets.add (new_target show c) s.store.target_rows;
          links = s.store.links ++ (id, r.id) ∷ [];
          folders = create_missing_dirs (paths.target_dir c.target_url) s.store.folders;
        };
      })

  -- The branch for a URL that is in the table.
  unfoldable pub add_known : Target → Option Session → Managed → Result (Unit {0}) × Managed
  add_known t none s = (err attribute_error, s)
  add_known t (some r) s =
      if any (is_link t.id r.id) s.store.links
      then (err db_integrity, s)
      else elim (add_target_to_session sessions targets works files paths.target_dir t.id
          (some r.id) s.store) [
            | err e ↦ (err e, s)
            | ok store ↦ (ok tt, record s { store = store })
          ]

  unfoldable pub add_target :
      (target_url : String) → Option ℕ → Managed → Result (Unit {0}) × Managed
  unfolding add_new add_known
  add_target target_url session_id s =
      let r =
        session_of
          (session_required sessions targets works files paths.target_dir session_id s.store)
          s.store in
      elim (find_first (has_target_url target_url) (targets.rows s.store.target_rows)) [
        | some t ↦ add_known t r s
        | none ↦ elim (derive_config_from_url net target_url) [
          | err e ↦ (err e, s)
          | ok c ↦ add_new c r s
        ]
      ]

  unfoldable pub add_targets : List String → Option ℕ → Managed → Result (Unit {0}) × Managed
  unfolding add_target
  add_targets [] session_id s = (ok tt, s)
  add_targets (url ∷ urls) session_id s =
      let (ends, s') = add_target url session_id s in
      elim ends [ err e ↦ (err e, s') | ok _ ↦ add_targets urls session_id s' ]

  -- `except DBIntegrityException` and `except UnresolvableTargetException`
  abbrev pub keeps_target : Result (Unit {0}) → Result Bool
  keeps_target (ok _) = ok true
  keeps_target (err db_integrity) = ok true
  keeps_target (err unresolvable_target) = ok false
  keeps_target (err e) = err e

  -- With `scope` the list of the command line, or that of get_aux_target.
  unfoldable pub load_targets : List String → Managed → Result (List String) × Managed
  unfolding add_target
  load_targets [] s = (ok [], s)
  load_targets (url ∷ urls) s =
      let (ends, s1) = add_target url none s in
      let (more, s2) = load_targets urls s1 in
      elim (keeps_target ends) [
        | err e ↦ (err e, s1)
        | ok kept ↦
            (elim more [ err e ↦ err e | ok added ↦ ok (if kept then url ∷ added else added) ], s2)
      ]

  -- By id, or by URL where there is one; `.one()` fails without a row. `scope` is a value of the data.
  unfoldable pub update_target :
      (scope : Option Bool) → (target_url : Option String) → (id : Option ℕ) → T → Result T
  update_target scope target_url id s =
      let found : Option Target = elim target_url [
        | some url ↦ find_first (has_target_url url) (targets.rows s.target_rows)
        | none ↦ elim id [
          | some n ↦
              if n == 0 then none else find_first (has_target_id n) (targets.rows s.target_rows)
          | none ↦ none
        ]
      ] in
      elim found [
        | none ↦ err invalid_target_reference
        | some t ↦ ok (elim scope [
          | none ↦ s
          | some b ↦ record s {
            target_rows =
                targets.update (has_target_id t.id) (λ u. record u { scope = b }) s.target_rows;
          }
        ])
      ]
