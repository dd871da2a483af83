-- ===== src/Runner/Rank.antt =====
-- `rank_plugin` of owtf/plugin/runner.py. The parser of reports (PTP) is a third-party package: a
-- parameter gives the highest ranking that it has after it parsed some modules in order, `none` for
-- an exception, which the code swallows. With no module it parses the folder itself.

use owtf.Base.{
  String, ◌≡◌, refl, ap, ◌∙◌, ◌≢◌, ◌⊎◌, inl, inr, Bool, true, false, ◌&&◌, ◌||◌, Option, none, some,
  List, [], ◌∷◌, ◌++◌, arith, ◌==◌, if◌then◌else◌, Bool-cases, Option-cases, is_some, get_elem?,
  any, All,
}
use Prim.Native.Char.{Char, code}
use text.Mathlib.Text.{find?}
use owtf.Base.Int.{ℤ, pos, negsuc, ltb_ℤ, eqb_ℤ, eqb_ℤ_iff, ◌≤ℤ◌}
use owtf.Exceptions.{Result, ok, err, ◌>>=◌, index_error}

-- An item of a plugin's output; a key that is missing is "".
pub record Item : Type 0 where
  -- `"output" in output`
  pub has_output : Bool
  pub modified_command : String
  pub relative_file_path : String

-- Name and output file of a metasploit module.
abbrev pub Module : Type 0
Module = String × String

abbrev attach : Char → List String → List String
attach c [] = String.◌∷◌ c "" ∷ []
attach c (w ∷ ws) = String.◌∷◌ c w ∷ ws

-- `text.split(" ")`
unfoldable pub split_spaces : String → List String
split_spaces String.[] = "" ∷ []
split_spaces (String.◌∷◌ c s) =
    let rest = split_spaces s in if code c == 32 then "" ∷ rest else attach c rest

unfoldable pub has_slash : String → Bool
has_slash String.[] = false
has_slash (String.◌∷◌ c s) = code c == 47 || has_slash s

-- `os.path.basename`
unfoldable pub base_name : String → String
unfolding has_slash
base_name String.[] = ""
base_name (String.◌∷◌ c s) =
    let rest = base_name s in if has_slash (String.◌∷◌ c s) then rest else String.◌∷◌ c s

abbrev pub is_metasploit : Item → Bool
is_metasploit item = item.has_output && is_some (find? item.modified_command "metasploit")

-- A metasploit command of fewer than four words is an IndexError.
unfoldable pub extract_metasploit_modules : List Item → Result (List Module)
extract_metasploit_modules [] = ok []
extract_metasploit_modules (item ∷ items) = elim (is_metasploit item) [
  | false ↦ extract_metasploit_modules items
  | true ↦ elim (get_elem? (split_spaces item.modified_command) 3) [
    | none ↦ err index_error
    | some name ↦ do
      rest ← extract_metasploit_modules items
      ok ((name, base_name item.relative_file_path) ∷ rest)
  ]
]

abbrev pub max_ℤ : ℤ → ℤ → ℤ
max_ℤ a b = if ltb_ℤ a b then b else a

max_ℤ-cases : (a b : ℤ) → ((max_ℤ a b ≡ a) × (b ≤ℤ a)) ⊎ ((max_ℤ a b ≡ b) × (a ≤ℤ b))
max_ℤ-cases a b = elim (Bool-cases (ltb_ℤ a b)) [
  | inl less ↦ inr (rw less refl, ground arith)
  | inr not_less ↦ inl (rw not_less refl, ground arith)
]

-- `v` is `start` or one of `rs`, and at least as high as all of them.
record IsHighest (start v : ℤ) (rs : List ℤ) : Type 0 where
  above_start : start ≤ℤ v
  above : All (λ r. r ≤ℤ v) rs
  reached : (v ≡ start) ⊎ (any (eqb_ℤ v) rs ≡ true)

one_more :
    (start r v : ℤ) (rs : List ℤ) → IsHighest (max_ℤ start r) v rs → IsHighest start v (r ∷ rs)
one_more start r v rs h = elim (max_ℤ-cases start r) [
  | inl (same, less) ↦
      let least : start ≤ℤ v = rw same at h.above_start in
      record {
        above_start = least;
        above = (ground arith, h.above);
        reached = elim h.reached [ inl e ↦ inl (e ∙ same) | inr e ↦ inr (ground arith) ];
      }
  | inr (same, less) ↦
      let least : r ≤ℤ v = rw same at h.above_start in
      record {
        above_start = ground arith;
        above = (least, h.above);
        reached = elim h.reached [
          | inl e ↦ inr (rw ((eqb_ℤ_iff v r).1 (e ∙ same)) refl)
          | inr e ↦ inr (ground arith)
        ];
      }
]

under_zero : (r : ℤ) → r ≤ℤ pos 0 → (r ≡ pos 0) ⊎ (r ≤ℤ negsuc 0)
under_zero (pos n) h = let none_left : n ≡ 0 = ground arith in inl (ap pos none_left)
under_zero (negsuc n) h = inr (ground arith)

All-under_zero :
    (v : ℤ) (rs : List ℤ)
    → v ≡ pos 0
    → All (λ r. r ≤ℤ v) rs
    → All (λ r. (r ≡ pos 0) ⊎ (r ≤ℤ negsuc 0)) rs
All-under_zero v [] e h = tt
All-under_zero v (r ∷ rs) e h = (under_zero r (rw e at h.0), All-under_zero v rs e h.1)

All-or_zero : (v : ℤ) (rs : List ℤ) → All (λ r. r ≤ℤ v) rs → All (λ r. (r ≡ pos 0) ⊎ (r ≤ℤ v)) rs
All-or_zero v [] h = tt
All-or_zero v (r ∷ rs) h = (inr h.0, All-or_zero v rs h.1)

module _ (highest_ranking : List Module → Option ℤ) where
  -- The loop over the modules, `done` being those that were parsed before.
  unfoldable pub rank_modules : (done modules : List Module) → ℤ → ℤ
  rank_modules done [] owtf_rank = owtf_rank
  rank_modules done (m ∷ ms) owtf_rank = elim (highest_ranking (done ++ m ∷ [])) [
    | none ↦ owtf_rank
    | some r ↦ rank_modules (done ++ m ∷ []) ms (max_ℤ owtf_rank r)
  ]

  unfoldable pub raw_rank : List Module → ℤ
  unfolding rank_modules
  raw_rank [] = elim (highest_ranking []) [ none ↦ negsuc 0 | some r ↦ r ]
  raw_rank (m ∷ ms) = rank_modules [] (m ∷ ms) (negsuc 0)

  -- PTP's 0, "unknown", is -1 here. No output is an empty list.
  abbrev pub without_unknown : ℤ → ℤ
  without_unknown r = if eqb_ℤ r (pos 0) then negsuc 0 else r

  unfoldable pub rank_plugin : List Item → Result ℤ
  unfolding raw_rank
  rank_plugin output = do
    modules ← extract_metasploit_modules output
    ok (without_unknown (raw_rank modules))

  -- The rankings that are read before the first exception.
  abbrev pub readings : (done modules : List Module) → List ℤ
  readings done [] = []
  readings done (m ∷ ms) = elim (highest_ranking (done ++ m ∷ [])) [
    | none ↦ []
    | some r ↦ r ∷ readings (done ++ m ∷ []) ms
  ]

  rank_modules-IsHighest :
      (done modules : List Module) (start : ℤ)
      → IsHighest start (rank_modules done modules start) (readings done modules)
  unfolding rank_modules
  rank_modules-IsHighest done [] start = record {
    above_start = ground arith;
    above = tt;
    reached = inl refl;
  }
  rank_modules-IsHighest done (m ∷ ms) start =
      elim (Option-cases (highest_ranking (done ++ m ∷ []))) [
        | inl e ↦
            rw (rank_modules, readings, e)
              (record { above_start = ground arith; above = tt; reached = inl refl })
        | inr (r, e) ↦
            let rest = rank_modules-IsHighest (done ++ m ∷ []) ms (max_ℤ start r) in
            rw (rank_modules, readings, e) (one_more start r _ _ rest)
      ]

  -- All that the parser reported for the modules of an output, or for its folder.
  abbrev pub reported : List Module → List ℤ
  reported [] = elim (highest_ranking []) [ none ↦ [] | some r ↦ r ∷ [] ]
  reported (m ∷ ms) = readings [] (m ∷ ms)

  raw_rank-reported :
      (modules : List Module)
      → All (λ r. r ≤ℤ raw_rank modules) (reported modules)
        × ((raw_rank modules ≡ negsuc 0)
            ⊎ (any (eqb_ℤ (raw_rank modules)) (reported modules) ≡ true))
  unfolding raw_rank
  raw_rank-reported [] = elim (Option-cases (highest_ranking [])) [
    | inl e ↦ rw (raw_rank, reported, e) (tt, inl refl)
    | inr (r, e) ↦ rw (raw_rank, reported, e) ((ground arith, tt), inr (ground arith))
  ]
  raw_rank-reported (m ∷ ms) =
      let highest = rank_modules-IsHighest [] (m ∷ ms) (negsuc 0) in
      (highest.above, highest.reached)

  -- Unless a metasploit command is too short, there is a rank. It is one that was reported before
  -- the first exception of the parser or -1, is never PTP's 0, and no rank that was reported is
  -- higher but 0.
  pub rank_plugin-reported :
      (output : List Item) (modules : List Module)
      → extract_metasploit_modules output ≡ ok modules
      → (rank : ℤ) × (rank_plugin output ≡ ok rank)
        × (rank ≢ pos 0)
        × All (λ r. (r ≡ pos 0) ⊎ (r ≤ℤ rank)) (reported modules)
        × ((rank ≡ negsuc 0) ⊎ (any (eqb_ℤ rank) (reported modules) ≡ true))
  unfolding rank_plugin
  rank_plugin-reported output modules e =
      let v = raw_rank modules in
      let (above, reached) = raw_rank-reported modules in
      elim (Bool-cases (eqb_ℤ v (pos 0))) [
        | inl unknown ↦ (
          negsuc 0,
          rw (rank_plugin, e, unknown) refl,
          λ h. absurd (cc),
          All-under_zero v (reported modules) ((eqb_ℤ_iff v (pos 0)).0 unknown) above,
          inl refl,
        )
        | inr known ↦ (
          v,
          rw (rank_plugin, e, known) refl,
          λ h. absurd (let no = (eqb_ℤ_iff v (pos 0)).1 h in cc),
          All-or_zero v (reported modules) above,
          reached,
        )
      ]
