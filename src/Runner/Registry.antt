-- ===== src/Runner/Registry.antt =====
-- The execution registry of owtf/plugin/runner.py: `get_last_plugin_exec` and
-- `get_log_since_last_exec`.

use owtf.Base.{
  ℕ, zero, suc, ◌+◌, ◌-◌, ◌<◌, String, ◌≡◌, refl, inl, inr, Bool, true, false, ◌&&◌, Option, none,
  some, List, [], ◌∷◌, ◌++◌, arith, str_eq, ltb, if◌then◌else◌, ltb→lt, Bool-cases, Option-cases,
  length, get_elem?, length-append, drop,
}
use mathlib.Core.Path.{subst}
use owtf.Base.Int.{ℤ, pos, negsuc}

-- A dictionary with text keys and values.
abbrev pub Dictionary : Type 0
Dictionary = List (String × String)

abbrev pub lookup : String → Dictionary → Option String
lookup k [] = none
lookup k ((j, v) ∷ d) = if str_eq j k then some v else lookup k d

abbrev pub has_value : Option String → String → Bool
has_value none v = false
has_value (some w) v = str_eq w v

-- `match` after the loop over the items of a log entry: none is missing or different.
abbrev pub matches : Dictionary → Dictionary → Bool
matches [] plugin = true
matches ((k, v) ∷ items) plugin = has_value (lookup k plugin) v && matches items plugin

-- `for index in range(num_items - 1, -1, -1)`, over the first `n` entries.
unfoldable pub search_back : ℕ → Dictionary → List Dictionary → ℤ
search_back zero plugin log = negsuc 0
search_back (suc n) plugin log =
    let earlier = search_back n plugin log in
    elim (get_elem? log n) [
      | none ↦ earlier
      | some entry ↦ if matches entry plugin then pos n else earlier
    ]

unfoldable pub get_last_plugin_exec : Dictionary → List Dictionary → ℤ
unfolding search_back
get_last_plugin_exec plugin log = search_back (length log) plugin log

-- `log[index:]`; a negative index counts from the end.
unfoldable pub slice_from : ℤ → List Dictionary → List Dictionary
slice_from (pos n) log = drop n log
slice_from (negsuc n) log = drop (length log - (n + 1)) log

unfoldable pub get_log_since_last_exec : Dictionary → List Dictionary → List Dictionary
unfolding slice_from
get_log_since_last_exec plugin log = slice_from (get_last_plugin_exec plugin log) log

abbrev pub Misses : Dictionary → List Dictionary → ℕ → Type 0
Misses plugin log j = (e : Dictionary) → get_elem? log j ≡ some e → matches e plugin ≡ false

-- The last of the first `n` entries that matches, if any.
pub data Last (n : ℕ) (plugin : Dictionary) (log : List Dictionary) (r : ℤ) : Type 0 where
  never : r ≡ negsuc 0 → ((j : ℕ) → j < n → Misses plugin log j) → Last n plugin log r
  at_index :
      (i : ℕ) (e : Dictionary)
      → r ≡ pos i
      → i < n
      → get_elem? log i ≡ some e
      → matches e plugin ≡ true
      → ((j : ℕ) → i < j → j < n → Misses plugin log j)
      → Last n plugin log r

Misses-extend :
    (n : ℕ) (plugin : Dictionary) (log : List Dictionary)
    → Misses plugin log n
    → (j : ℕ) → (j < n → Misses plugin log j)
    → j < suc n
    → Misses plugin log j
Misses-extend n plugin log miss j h lt = elim (Bool-cases (ltb j n)) [
  | inl below ↦ h (ltb→lt j n below)
  | inr last ↦ subst (Misses plugin log) (let same : n ≡ j = ground arith in same) miss
]

Last-skip :
    (n : ℕ) (plugin : Dictionary) (log : List Dictionary) (r : ℤ)
    → Misses plugin log n
    → Last n plugin log r
    → Last (suc n) plugin log r
Last-skip n plugin log r miss (never e h) = never e (λ j. Misses-extend n plugin log miss j (h j))
Last-skip n plugin log r miss (at_index i x e lt here m h) =
    at_index i x e (omega arith) here m (λ j lo. Misses-extend n plugin log miss j (h j lo))

search_back-Last :
    (n : ℕ) (plugin : Dictionary) (log : List Dictionary)
    → Last n plugin log (search_back n plugin log)
unfolding search_back
search_back-Last zero plugin log = never refl (λ j lt. absurd (omega arith))
search_back-Last (suc n) plugin log = elim (Option-cases (get_elem? log n)) [
  | inl missing ↦
      rw (missing, search_back)
        (Last-skip n plugin log _ (λ e there. absurd (ground arith))
          (search_back-Last n plugin log))
  | inr (entry, there) ↦ elim (Bool-cases (matches entry plugin)) [
    | inl fits ↦
        rw (there, search_back, fits)
          (at_index n entry refl (omega arith) there fits (λ j lo hi. absurd (omega arith)))
    | inr differs ↦
        rw (there, search_back, differs)
          (Last-skip n plugin log _
            (λ e also.
              subst (λ d. matches d plugin ≡ false) (let same : entry ≡ e = ground arith in same)
                differs)
            (search_back-Last n plugin log))
  ]
]

-- The result is the index of the last entry of the log of which every item is an item of the
-- plugin, and -1 if there is none.
pub get_last_plugin_exec-Last :
    (plugin : Dictionary) (log : List Dictionary)
    → Last (length log) plugin log (get_last_plugin_exec plugin log)
unfolding get_last_plugin_exec
get_last_plugin_exec-Last plugin log = search_back-Last (length log) plugin log

one_less : (e : Dictionary) (log : List Dictionary) → length (log ++ e ∷ []) - 1 ≡ length log
one_less e log = omega (arith, length-append log (e ∷ []))

drop-append : {e : Dictionary} (log : List Dictionary) → drop (length log) (log ++ e ∷ []) ≡ e ∷ []
drop-append [] = refl
drop-append (d ∷ log) = drop-append log

-- For a plugin that no entry of a log matches, "the log since its last execution" is the last
-- entry alone, not the whole log: -1 is used as an index.
pub get_log_since_last_exec-never :
    (plugin : Dictionary) (log : List Dictionary) (entry : Dictionary)
    → ((j : ℕ) → j < length (log ++ entry ∷ []) → Misses plugin (log ++ entry ∷ []) j)
    → get_log_since_last_exec plugin (log ++ entry ∷ []) ≡ entry ∷ []
unfolding get_log_since_last_exec
get_log_since_last_exec-never plugin log entry h =
    rw (no_index (get_last_plugin_exec-Last plugin (log ++ entry ∷ [])))
      (rw (one_less entry log) (drop-append log))
  where
    no_index :
        {r : ℤ} → Last (length (log ++ entry ∷ [])) plugin (log ++ entry ∷ []) r → r ≡ negsuc 0
    no_index (never e _) = e
    no_index (at_index i x e lt there m _) = absurd (cc (h i lt x there))
