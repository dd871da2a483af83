-- ===== src/Sessions/Deletion.antt =====
-- What the deletion of targets, `delete_target` of owtf/managers/target.py and the loop of
-- `delete_session` of owtf/managers/session.py, leaves of the others and their links.

use owtf.Base.{
  ℕ, zero, suc, String, ◌≡◌, refl, sym, ◌∙◌, ◌≢◌, inl, inr, Bool, true, List, [], ◌∷◌, arith, ◌==◌,
  ==_iff, Bool-cases, Option-cases, length, keep, reject, find_first, any, find_first-Hit,
}
use owtf.Db.Table.{Table}
use owtf.Db.Files.{Files}
use owtf.Db.Models.{Session, Target, Work}
use owtf.Exceptions.{ok, parts_of_ok}
use owtf.Sessions.{Store, has_target_id, is_link_of, delete_target, delete_targets}
use owtf.Sessions.Links.{own, AllDifferent, own-reject_other, AllDifferent-reject}

any-reject_target :
    (t u : ℕ) (ts : List Target)
    → any (has_target_id t) (reject (has_target_id u) ts) ≡ true
    → (any (has_target_id t) ts ≡ true) × (u ≢ t)
any-reject_target t u [] h = absurd (cc)
any-reject_target t u (r ∷ ts) h = elim (Bool-cases (r.id == u)) [
  | inl gone ↦ let rest = any-reject_target t u ts (ground arith) in (ground arith, rest.1)
  | inr stays ↦ elim (Bool-cases (r.id == t)) [
    | inl its ↦ (ground arith, λ e. absurd (ground arith))
    | inr other ↦ let rest = any-reject_target t u ts (ground arith) in (ground arith, rest.1)
  ]
]

any-reject_others :
    (t u : ℕ) (ts : List Target)
    → u ≢ t
    → any (has_target_id t) ts ≡ true
    → any (has_target_id t) (reject (has_target_id u) ts) ≡ true
any-reject_others t u [] h there = absurd (cc)
any-reject_others t u (r ∷ ts) h there = ground (arith, any-reject_others t u ts h)

module _ (sessions : Table Session) (targets : Table Target) (works : Table Work) (files : Files)
    (target_dir : String → String) where
  abbrev T : Type 0
  T = Store sessions targets works files

  abbrev pub is_there : ℕ → T → Bool
  is_there t s = any (has_target_id t) (targets.rows s.target_rows)

  -- Every target is in a session, and no link is there twice.
  pub record IsConsistent (s : T) : Type 0 where
    pub linked : (t : ℕ) → is_there t s ≡ true → any (is_link_of t) s.links ≡ true
    pub different : AllDifferent s.links

  -- What the deletion of a target leaves of another.
  pub record Keeps (t : ℕ) (s s' : T) : Type 0 where
    pub was_there : is_there t s ≡ true
    pub same_links : own t s'.links ≡ own t s.links

  pub delete_target-Keeps :
      (n t : ℕ) (s s' : T)
      → delete_target sessions targets works files target_dir n s ≡ ok s'
      → is_there t s' ≡ true
      → Keeps t s s' × (n ≢ t)
  unfolding delete_target
  delete_target-Keeps zero t s s' e there = absurd (cc)
  delete_target-Keeps (suc n) t s s' e there =
      elim (Option-cases (find_first (has_target_id (suc n)) (targets.rows s.target_rows))) [
        | inl missing ↦ absurd (ground arith)
        | inr (u, found) ↦
            let same : u.id ≡ suc n =
              (==_iff u.id (suc n)).0
                (find_first-Hit (has_target_id (suc n)) u (targets.rows s.target_rows)
                  found).holds in
            let rows : s'.target_rows ≡ targets.delete (has_target_id u.id) s.target_rows =
              ground arith in
            let links : s'.links ≡ reject (is_link_of u.id) s.links = ground arith in
            let (was, other) =
              any-reject_target t u.id (targets.rows s.target_rows)
                (rw (rows, targets.rows-delete) at there) in
            (
              record {
                was_there = was;
                same_links = rw links (own-reject_other t u.id s.links other);
              },
              λ e'. other (same ∙ e'),
            )
      ]

  delete_target-stays :
      (n t : ℕ) (s s' : T)
      → delete_target sessions targets works files target_dir n s ≡ ok s'
      → n ≢ t
      → is_there t s ≡ true
      → is_there t s' ≡ true
  unfolding delete_target
  delete_target-stays zero t s s' e other there = absurd (cc)
  delete_target-stays (suc n) t s s' e other there =
      elim (Option-cases (find_first (has_target_id (suc n)) (targets.rows s.target_rows))) [
        | inl missing ↦ absurd (ground arith)
        | inr (u, found) ↦
            let same : u.id ≡ suc n =
              (==_iff u.id (suc n)).0
                (find_first-Hit (has_target_id (suc n)) u (targets.rows s.target_rows)
                  found).holds in
            let rows : s'.target_rows ≡ targets.delete (has_target_id u.id) s.target_rows =
              ground arith in
            rw (rows, targets.rows-delete)
              (any-reject_others t u.id (targets.rows s.target_rows) (λ e'. other (sym same ∙ e'))
                there)
      ]

  pub delete_target-AllDifferent :
      (n : ℕ) (s s' : T)
      → delete_target sessions targets works files target_dir n s ≡ ok s'
      → AllDifferent s.links
      → AllDifferent s'.links
  unfolding delete_target
  delete_target-AllDifferent zero s s' e d = absurd (cc)
  delete_target-AllDifferent (suc n) s s' e d =
      elim (Option-cases (find_first (has_target_id (suc n)) (targets.rows s.target_rows))) [
        | inl missing ↦ absurd (ground arith)
        | inr (u, found) ↦
            let links : s'.links ≡ reject (is_link_of u.id) s.links = ground arith in
            rw links (AllDifferent-reject (is_link_of u.id) s.links d)
      ]

  -- The loop of `delete_session`: a target that is left has kept its links, and was not in the list
  -- with one link only.
  pub delete_targets-Keeps :
      (ts : List Target) (t : ℕ) (s s' : T)
      → delete_targets sessions targets works files target_dir ts s ≡ ok s'
      → is_there t s' ≡ true
      → Keeps t s s' × (any (has_target_id t) ts ≡ true → length (own t s.links) ≢ 1)
  unfolding delete_targets
  delete_targets-Keeps [] t s s' e there =
      let same : s ≡ s' = ground arith in
      (record { was_there = rw same there; same_links = rw same refl }, λ h. absurd (cc))
  delete_targets-Keeps (u ∷ ts) t s s' e there =
      elim (Bool-cases (length (keep (is_link_of u.id) s.links) == 1)) [
        | inl one ↦
            let (next, first, rest) =
              parts_of_ok (delete_target sessions targets works files target_dir u.id s)
                (delete_targets sessions targets works files target_dir ts) (ground arith) in
            let (later, many) = delete_targets-Keeps ts t next s' rest there in
            let (earlier, other) = delete_target-Keeps u.id t s next first later.was_there in
            (
              record {
                was_there = earlier.was_there;
                same_links = later.same_links ∙ earlier.same_links;
              },
              λ h one_link. many (ground (arith, other)) (rw earlier.same_links one_link),
            )
        | inr not_one ↦
            let (later, many) = delete_targets-Keeps ts t s s' (ground arith) there in
            (
              later,
              λ h one_link. elim (Bool-cases (u.id == t)) [
                | inl its ↦
                    let its' = (==_iff u.id t).0 its in
                    absurd (let no = rw its' at not_one in ground arith)
                | inr other ↦ many (ground arith) one_link
              ],
            )
      ]

  -- A target that is not in the list with one link only is left.
  pub delete_targets-stays :
      (ts : List Target) (t : ℕ) (s s' : T)
      → delete_targets sessions targets works files target_dir ts s ≡ ok s'
      → is_there t s ≡ true
      → (any (has_target_id t) ts ≡ true → length (own t s.links) ≢ 1)
      → is_there t s' ≡ true
  unfolding delete_targets
  delete_targets-stays [] t s s' e there many =
      let same : s ≡ s' = ground arith in rw (← same) there
  delete_targets-stays (u ∷ ts) t s s' e there many =
      elim (Bool-cases (length (keep (is_link_of u.id) s.links) == 1)) [
        | inl one ↦
            let (next, first, rest) =
              parts_of_ok (delete_target sessions targets works files target_dir u.id s)
                (delete_targets sessions targets works files target_dir ts) (ground arith) in
            let other : u.id ≢ t = λ its.
              let here : any (has_target_id t) (u ∷ ts) ≡ true = ground arith in
              let once : length (own u.id s.links) ≡ 1 = ground arith in
              many here (rw its at once) in
            let stays = delete_target-stays u.id t s next first other there in
            let (kept, _) = delete_target-Keeps u.id t s next first stays in
            delete_targets-stays ts t next s' rest stays
              (λ h one_link. many (ground arith) (rw kept.same_links at one_link))
        | inr not_one ↦
            delete_targets-stays ts t s s' (ground arith) there (λ h. many (ground arith))
      ]

  pub delete_targets-AllDifferent :
      (ts : List Target) (s s' : T)
      → delete_targets sessions targets works files target_dir ts s ≡ ok s'
      → AllDifferent s.links
      → AllDifferent s'.links
  unfolding delete_targets
  delete_targets-AllDifferent [] s s' e d = ground arith
  delete_targets-AllDifferent (u ∷ ts) s s' e d =
      elim (Bool-cases (length (keep (is_link_of u.id) s.links) == 1)) [
        | inl one ↦
            let (next, first, rest) =
              parts_of_ok (delete_target sessions targets works files target_dir u.id s)
                (delete_targets sessions targets works files target_dir ts) (ground arith) in
            delete_targets-AllDifferent ts next s' rest
              (delete_target-AllDifferent u.id s next first d)
        | inr not_one ↦ delete_targets-AllDifferent ts s s' (ground arith) d
      ]
