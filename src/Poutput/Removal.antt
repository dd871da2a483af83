-- ===== src/Poutput/Removal.antt =====
-- What `delete_all_poutput` of owtf/managers/poutput.py removes, and what it leaves.

use owtf.Base.{
  ℕ, String, ◌≡◌, refl, inl, inr, Bool, true, false, not, ◌&&◌, ◌||◌, Option, none, some, List, [],
  ◌∷◌, arith, str_eq, Bool-cases, is_some, keep, All, keep-reject, any-reject,
}
use mathlib.Core.Path.{subst, fun_ext}
use owtf.Base.Int.{ℤ}
use owtf.Db.Table.{Table}
use owtf.Db.Files.{Files}
use owtf.Db.Models.{PluginOutput}
use owtf.Exceptions.{ok, Result-cases}
use owtf.Poutput.{
  Outputs, folder, page, plugin_output_exists, rm_folder, rm_folders, delete_query,
  delete_all_poutput,
}
use owtf.Poutput.Criteria.{
  FilterData, Query, one, no_filter, poutput_gen_query, same_target, rank_filter, bound,
}

abbrev pub other_target : Option ℕ → PluginOutput → Bool
other_target t r = not (same_target t r.target_id)

gen_query-target :
    (int : String → Option ℤ) (f : FilterData) (t : Option ℕ) (d : Bool) (q : Query)
    (r : PluginOutput)
    → poutput_gen_query int f t d ≡ ok q
    → q.selects r ≡ true
    → same_target t r.target_id ≡ true
unfolding poutput_gen_query
gen_query-target int f t d q r e h = ground arith

module _ (table : Table PluginOutput) (files : Files) (path_of : String → String)
    (int : String → Option ℤ) where
  delete_query-other_target :
      (t : Option ℕ) (q : Query) (o : Option (List PluginOutput)) (s : Outputs table files)
      → ((r : PluginOutput) → q.selects r ≡ true → same_target t r.target_id ≡ true)
      → keep (other_target t) (table.rows (delete_query table files path_of q o s).1.rows)
        ≡ keep (other_target t) (table.rows s.rows)
  unfolding delete_query
  delete_query-other_target t q none s h = refl
  delete_query-other_target t q (some rs) s h =
      elim (Bool-cases (is_some q.offset || is_some q.limit)) [
        | inl sliced ↦ rw sliced
        | inr plain ↦
            rw (plain, table.rows-delete)
              (keep-reject q.selects (other_target t) (table.rows s.rows)
                (λ r e. ground (arith, h r e)))
      ]

  -- Whatever the filter, and also when the removal fails, the outputs of every other target stay
  -- in the table, in their order.
  pub delete_all_poutput-other_target :
      (f : FilterData) (t : Option ℕ) (s : Outputs table files)
      → keep (other_target t) (table.rows (delete_all_poutput table files path_of int f t s).1.rows)
        ≡ keep (other_target t) (table.rows s.rows)
  unfolding delete_all_poutput
  delete_all_poutput-other_target f t s = elim (Result-cases (poutput_gen_query int f t true)) [
    | inr (e, failed) ↦ rw (failed, delete_all_poutput)
    | inl (q, made) ↦
        rw (made, delete_all_poutput)
          (delete_query-other_target t q (page q (table.rows s.rows)) s
            (λ r h. gen_query-target int f t true q r made h))
  ]

  -- Once a path is gone, removing more folders does not bring it back.
  rm_folders-gone :
      (p : String) (rs : List PluginOutput) (fs : files.State)
      → files.exists p fs ≡ false
      → files.exists p (rm_folders table files path_of rs fs) ≡ false
  unfolding rm_folders
  rm_folders-gone p [] fs e = e
  rm_folders-gone p (r ∷ rs) fs e = rm_folders-gone p rs _ (one_gone (folder r))
    where
      one_gone : (o : Option String) → files.exists p (rm_folder table files path_of o fs) ≡ false
      one_gone none = e
      one_gone (some q) = elim (Bool-cases (files.exists (path_of q) fs)) [
        | inl there ↦ rw there (files.exists_of_rm_tree p (path_of q) fs e)
        | inr gone ↦ rw gone e
      ]

  rm_folder-gone :
      (p : String) (o : Option String) (fs : files.State)
      → o ≡ some p
      → files.exists (path_of p) (rm_folder table files path_of o fs) ≡ false
  unfolding rm_folder
  rm_folder-gone p none fs e = absurd (cc)
  rm_folder-gone p (some q) fs e = elim (Bool-cases (files.exists (path_of q) fs)) [
    | inl there ↦ ground (arith, files.exists-rm_tree (path_of p) fs)
    | inr gone ↦ ground arith
  ]

  abbrev pub FolderGone : files.State → PluginOutput → Type 0
  FolderGone fs r = (p : String) → folder r ≡ some p → files.exists (path_of p) fs ≡ false

  rm_folders-FolderGone :
      (rs : List PluginOutput) (fs : files.State)
      → All (FolderGone (rm_folders table files path_of rs fs)) rs
  unfolding rm_folders
  rm_folders-FolderGone [] fs = tt
  rm_folders-FolderGone (r ∷ rs) fs = (
    λ p e. rm_folders-gone (path_of p) rs _ (rm_folder-gone p (folder r) fs e),
    rm_folders-FolderGone rs _,
  )

  abbrev pub only_key : String → FilterData
  only_key key = record no_filter { plugin_key = one key }

  same_rows :
      (key : String) (t : ℕ)
      → str_eq key "" ≡ false
      → (r : PluginOutput)
      → (same_target (some t) r.target_id
          && (str_eq key "" || str_eq r.plugin_key key)
          && true
          && true
          && true
          && true
          && true
          && true)
        ≡ (same_target (some t) r.target_id && str_eq r.plugin_key key)
  same_rows key t h r = ground arith

  pub record IsRemoved (key : String) (t : ℕ) (s s' : Outputs table files) : Type 0 where
    pub absent_now : plugin_output_exists table files key t s' ≡ false
    pub folders_gone : All (FolderGone s'.folders) (
        keep (λ r. same_target (some t) r.target_id && str_eq r.plugin_key key) (table.rows s.rows))

  -- Deleting by one plugin key succeeds; the target then has no output of that plugin, and the
  -- folders of the outputs that it had are gone.
  pub delete_all_poutput-only_key :
      (key : String) (t : ℕ) (s : Outputs table files)
      → str_eq key "" ≡ false
      → ((delete_all_poutput table files path_of int (only_key key) (some t) s).0 ≡ ok tt)
        × IsRemoved key t s (delete_all_poutput table files path_of int (only_key key) (some t) s).1
  unfolding delete_all_poutput poutput_gen_query delete_query rank_filter bound plugin_output_exists
  delete_all_poutput-only_key key t s h = (
    refl,
    record {
      absent_now =
          rw table.rows-delete (any-reject _ _ (table.rows s.rows) (λ r e. ground (arith, e, h)));
      folders_gone =
          let after = (delete_all_poutput table files path_of int (only_key key) (some t) s).1 in
          subst (λ p. All (FolderGone after.folders) (keep p (table.rows s.rows)))
            (fun_ext (same_rows key t h)) (rm_folders-FolderGone _ s.folders);
    },
  )
