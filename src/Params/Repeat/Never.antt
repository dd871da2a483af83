-- ===== src/Params/Repeat/Never.antt =====
-- REPEAT_DELIM (owtf/plugin/params.py): set_args with several values for an argument.

use owtf.Base.{
  ℕ, zero, suc, String, Option, none, some, List, [], ◌∷◌, ◌++◌, str_eq, length, get_elem?, set,
  ◌<◌, ◌+◌, ◌≡◌, refl, sym, ◌∙◌, arith, All, length-append, length-set, inl, inr, Bool-cases,
  Option-cases,
}
use owtf.Base.Dict.{Dict, lookup, insert}
use owtf.Config.{Value, text}
use owtf.Exceptions.{ok, ◌>>=◌, parts_of_ok}
use owtf.Params.{PluginInfo, PluginParams, set_args_basic}
use owtf.Params.Repeat.{
  split_value, with_chunks, permutations_of, get_permutations, append_copies, set_values,
  set_permutation, set_permutations, set_args,
}

-- Has the argument more than one value?
abbrev IsRepeated : String × List String → Type 0
IsRepeated e = 1 < length e.1

-- What set_args returns for the permutations: the arguments as they are, or never anything.
abbrev pub runs_of : List (String × List String) → Dict Value → Option (List (Dict Value))
runs_of [] args = some (args ∷ [])
runs_of (_ ∷ _) args = none

length-append_copies :
    (name : String) (current : Dict Value) (perms : List String) (runs : List (Dict Value))
    → length (append_copies name current perms runs) ≡ length perms + length runs
unfolding append_copies
length-append_copies name current [] runs = omega arith
length-append_copies name current (perm ∷ perms) runs = omega (
  arith,
  length-append_copies name current perms (runs ++ insert name (text perm) current ∷ []),
  length-append runs (insert name (text perm) current ∷ []),
)

length-set_values :
    (name : String) (current : Dict Value) (index : ℕ) (perms : List String)
    (runs : List (Dict Value))
    → 1 < length perms
    → length runs < length (set_values name current index perms runs)
unfolding set_values
length-set_values name current index [] runs h = absurd (omega arith)
length-set_values name current index (perm ∷ perms) runs h =
    let current' = insert name (text perm) current in
    omega (
      arith,
      length-append_copies name current' perms (set runs index current'),
      length-set runs index current',
    )

get_elem-below :
    (runs : List (Dict Value)) (index : ℕ)
    → index < length runs
    → (run : Dict Value) × (get_elem? runs index ≡ some run)
get_elem-below [] index h = absurd (omega arith)
get_elem-below (run ∷ runs) zero h = (run, refl)
get_elem-below (run ∷ runs) (suc index) h = get_elem-below runs index (omega arith)

-- Two values for one argument, and the loop of set_permutation never ends: it has not returned
-- after any number of rounds, since each appends a record.
pub set_permutation-never :
    (rounds : ℕ) (name : String) (perms : List String) (index : ℕ) (runs : List (Dict Value))
    → 1 < length perms
    → index < length runs
    → set_permutation rounds name perms index runs ≡ none
unfolding set_permutation
set_permutation-never zero name perms index runs many inside =
    let (run, e) = get_elem-below runs index inside in rw (set_permutation, e) refl
set_permutation-never (suc n) name perms index runs many inside =
    let (run, e) = get_elem-below runs index inside in
    let longer = length-set_values name run index perms runs many in
    rw (set_permutation, e)
      (set_permutation-never n name perms (suc index) (set_values name run index perms runs) many
        (omega (arith, longer)))

set_permutations-never :
    (rounds : ℕ) (permutations : List (String × List String)) (args : Dict Value)
    → All IsRepeated permutations
    → set_permutations rounds permutations (args ∷ []) ≡ runs_of permutations args
unfolding set_permutations
set_permutations-never rounds [] args h = refl
set_permutations-never rounds ((name, perms) ∷ more) args h =
    rw (set_permutations, set_permutation-never rounds name perms 0 (args ∷ []) (h.0) (omega arith))
      refl

with_chunks-IsRepeated :
    (name : String) (chunks : List String) (more : List (String × List String))
    → All IsRepeated more
    → All IsRepeated (with_chunks name chunks more)
unfolding with_chunks
with_chunks-IsRepeated name [] more h = h
with_chunks-IsRepeated name (c ∷ []) more h = h
with_chunks-IsRepeated name (c ∷ d ∷ cs) more h = (omega arith, h)

permutations_of-IsRepeated :
    (separator : Value) (args : Dict Value) (permutations : List (String × List String))
    → permutations_of separator args ≡ ok permutations
    → All IsRepeated permutations
unfolding permutations_of
permutations_of-IsRepeated separator [] permutations e =
    let empty : permutations ≡ [] = ground arith in rw empty tt
permutations_of-IsRepeated separator ((name, v) ∷ args) permutations e =
    elim (Bool-cases (str_eq name "REPEAT_DELIM")) [
      | inl delimiter ↦
          let skipped : permutations_of separator ((name, v) ∷ args)
              ≡ permutations_of separator args =
            rw (permutations_of, delimiter) refl in
          permutations_of-IsRepeated separator args permutations (sym skipped ∙ e)
      | inr other ↦
          let opened : permutations_of separator ((name, v) ∷ args) ≡ (
              split_value separator v >>= λ chunks.
              permutations_of separator args >>= λ more. ok (with_chunks name chunks more)) =
            rw (permutations_of, other) refl in
          let (chunks, _, rest) = parts_of_ok (split_value separator v) _ (sym opened ∙ e) in
          let (more, computed, last) = parts_of_ok (permutations_of separator args) _ rest in
          let same : permutations ≡ with_chunks name chunks more = ground (arith, last) in
          rw same (
            with_chunks-IsRepeated name chunks more
              (permutations_of-IsRepeated separator args more computed))
    ]

get_permutations-IsRepeated :
    (args : Dict Value) (permutations : List (String × List String))
    → get_permutations args ≡ ok permutations
    → All IsRepeated permutations
unfolding get_permutations
get_permutations-IsRepeated args permutations e = elim (Option-cases (lookup "REPEAT_DELIM" args)) [
  | inl missing ↦
      let nothing : get_permutations args ≡ ok [] = rw (get_permutations, missing) refl in
      let empty : permutations ≡ [] = ground (arith, nothing, e) in rw empty tt
  | inr (separator, there) ↦
      let opened : get_permutations args ≡ permutations_of separator args =
        rw (get_permutations, there) refl in
      permutations_of-IsRepeated separator args permutations (sym opened ∙ e)
]

-- Where the permutations of a plugin's arguments can be computed: if no argument has several values,
-- set_args gives the arguments as they are, for one run; if one has, it never returns, since it
-- has not after any number of rounds of the loop.
pub set_args-never :
    (show_list : List String → String) (rounds : ℕ) (entry : String × Value) (entries : Dict Value)
    (plugin : PluginInfo) (p : PluginParams) (permutations : List (String × List String))
    → get_permutations (entry ∷ entries) ≡ ok permutations
    → (set_args show_list rounds (entry ∷ entries) plugin p).0
      ≡ ok (runs_of permutations (entry ∷ entries))
unfolding set_args set_args_basic
set_args-never show_list rounds entry entries plugin p permutations e =
    rw
      (
        set_args,
        e,
        set_permutations-never rounds permutations (entry ∷ entries)
            (get_permutations-IsRepeated (entry ∷ entries) permutations e),
      )
      refl
