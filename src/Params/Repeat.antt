-- ===== src/Params/Repeat.antt =====
-- The runs that REPEAT_DELIM asks for (owtf/plugin/params.py), and get_args, which stands on them.

pub mod Never
use owtf.Base.{
  ℕ, zero, suc, String, Bool, true, false, Option, none, some, List, [], ◌∷◌, ◌++◌, str_eq,
  if◌then◌else◌, mem_str, length, get_elem?, set, not, ◌<◌, ◌+◌, ◌≡◌, refl, sym, ◌∙◌, arith, All,
  length-append, length-set, inl, inr, Bool-cases, Option-cases,
}
use Prim.Native.String
use owtf.Base.Text.{size, split_at}
use owtf.Base.Dict.{Dict, lookup, insert}
use owtf.Config.{Value, text, texts, flag, Config}
use owtf.Exceptions.{
  Result, ok, err, key_error, value_error, type_error, attribute_error, ◌>>=◌, parts_of_ok,
}
use owtf.Params.{
  PluginInfo, PluginParams, Declared, set_arg_error, check_arg_list, get_arg_list, show_param_info,
  merge_dicts, set_args_basic,
}

-- `arg_val.split(separator)`
unfoldable pub split_value : (separator value : Value) → Result (List String)
unfolding split_at
split_value (text String.[]) (text s) = err value_error
split_value (text (String.◌∷◌ c sep)) (text s) = ok (split_at (String.◌∷◌ c sep) (size sep) 0 s)
split_value (texts _) (text s) = err type_error
split_value (flag _) (text s) = err type_error
split_value separator (texts _) = err attribute_error
split_value separator (flag _) = err attribute_error

-- Only a value of several chunks is a permutation.
unfoldable pub with_chunks :
    String → List String → List (String × List String) → List (String × List String)
with_chunks name [] more = more
with_chunks name (_ ∷ []) more = more
with_chunks name (c ∷ d ∷ chunks) more = (name, c ∷ d ∷ chunks) ∷ more

-- The loop of get_permutations.
unfoldable pub permutations_of :
    (separator : Value) → Dict Value → Result (List (String × List String))
unfolding split_value with_chunks
permutations_of separator [] = ok []
permutations_of separator ((name, v) ∷ args) =
    let rest = permutations_of separator args in
    if str_eq name "REPEAT_DELIM"
    then rest
    else (do chunks ← split_value separator v; more ← rest; ok (with_chunks name chunks more))

unfoldable pub get_permutations : Dict Value → Result (List (String × List String))
unfolding permutations_of
get_permutations args = elim (lookup "REPEAT_DELIM" args) [
  | none ↦ ok []
  | some separator ↦ permutations_of separator args
]

-- The inner loop of set_permutation after its first round: copies of the record at the index are
-- appended, each with its value.
unfoldable pub append_copies :
    (name : String) → (current : Dict Value) → List String → List (Dict Value) → List (Dict Value)
append_copies name current [] runs = runs
append_copies name current (perm ∷ perms) runs =
    append_copies name current perms (runs ++ insert name (text perm) current ∷ [])

-- The inner loop: the first value goes into the record at the index.
unfoldable pub set_values :
    (name : String)
    → (current : Dict Value) → (index : ℕ) → List String
    → List (Dict Value)
    → List (Dict Value)
unfolding append_copies
set_values name current index [] runs = runs
set_values name current index (perm ∷ perms) runs =
    let current' = insert name (text perm) current in
    append_copies name current' perms (set runs index current')

-- set_permutation: the outer loop goes over the list while the inner one appends to it, until the index
-- is past its end; `none` when the rounds are used up before.
unfoldable pub set_permutation :
    (rounds : ℕ)
    → (name : String) → List String
    → (index : ℕ) → List (Dict Value)
    → Option (List (Dict Value))
unfolding set_values
set_permutation zero name perms index runs = elim (get_elem? runs index) [
  | none ↦ some runs
  | some _ ↦ none
]
set_permutation (suc n) name perms index runs = elim (get_elem? runs index) [
  | none ↦ some runs
  | some current ↦
      set_permutation n name perms (suc index) (set_values name current index perms runs)
]

-- The loop of set_args over the permutations.
unfoldable pub set_permutations :
    (rounds : ℕ) → List (String × List String) → List (Dict Value) → Option (List (Dict Value))
unfolding set_permutation
set_permutations rounds [] runs = some runs
set_permutations rounds ((name, perms) ∷ more) runs =
    elim (set_permutation rounds name perms 0 runs) [
      | none ↦ none
      | some runs' ↦ set_permutations rounds more runs'
    ]

-- set_args; `none` when it has not returned within the rounds.
unfoldable pub set_args :
    (show_list : List String → String)
    → (rounds : ℕ) → Dict Value
    → PluginInfo
    → PluginParams
    → Result (Option (List (Dict Value))) × PluginInfo × PluginParams
unfolding get_permutations set_permutations set_args_basic
set_args show_list rounds all_args plugin p =
    let (arg_list, plugin', p') = set_args_basic show_list all_args plugin p in
    (
      elim arg_list [
        | [] ↦ ok (some [])
        | args ∷ _ ↦ do
          permutations ← get_permutations args
          ok (set_permutations rounds permutations (args ∷ []))
      ],
      plugin',
      p',
    )

-- get_args; an exception leaves what was changed before it.
unfoldable pub get_args :
    Config
    → (show_list : List String → String) → (rounds : ℕ) → Declared
    → PluginInfo
    → PluginParams
    → Result (Option (List (Dict Value))) × PluginInfo × PluginParams
unfolding set_arg_error check_arg_list show_param_info get_arg_list merge_dicts set_args
get_args config show_list rounds d plugin p =
    let (checked, plugin1, p1) = check_arg_list d (set_arg_error false plugin) p in
    if not checked
    then (ok (some []), plugin1, p1)
    else if mem_str "O" p1.raw_args
    then ((do _ ← show_param_info d; ok (some [])), plugin1, p1)
    else elim d.mandatory [
      | none ↦ (err key_error, plugin1, p1)
      | some names ↦
          let (mandatory, plugin2, p2) = get_arg_list config names true plugin1 p1 in
          elim d.optional [
            | none ↦ (err key_error, plugin2, p2)
            | some others ↦
                let (optional, plugin3, p3) = get_arg_list config others false plugin2 p2 in
                if plugin3.arg_error
                then (ok (some []), plugin3, p3)
                else set_args show_list rounds (merge_dicts mandatory optional) plugin3 p3
          ]
    ]
