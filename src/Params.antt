-- ===== src/Params.antt =====
-- owtf/plugin/params.py: the arguments NAME=VALUE of the command line, what a plugin is given of
-- them, and the runs that REPEAT_DELIM asks for. What only writes to the log is left out.

pub mod Passed
pub mod Repeat
use owtf.Base.{
  ℕ, zero, suc, String, Bool, true, false, Option, none, some, List, [], ◌∷◌, ◌++◌, str_eq,
  if◌then◌else◌, mem_str, length, get_elem?, set, is_some, ◌&&◌,
}
use Prim.Native.String
use owtf.Base.Text.{cat, size, tail, split_on, split_at, remove_all}
use owtf.Base.Dict.{Dict, lookup, insert}
use owtf.Config.{Value, text, texts, flag, Config, is_set, get_val, set_string}
use owtf.Exceptions.{
  Result, ok, err, key_error, value_error, type_error, attribute_error, framework_abort, ◌>>=◌,
}

-- What Error.add_error is called with.
pub data Complaint : Type 0 where
  -- the arguments should be in NAME=VALUE format
  bad_format : (chunks : List String) → Complaint
  requires_argument : String → Complaint
  undeclared_arguments : Complaint
  no_description : Complaint

-- What the module reads and writes of the dictionary of a plugin.
pub record PluginInfo : Type 0 where
  pub code : String
  pub type_of : String
  pub arg_error : Bool
  pub recorded : String

-- `self.args` is a defaultdict(list): reading a name that is not there stores an empty list.
pub record PluginParams : Type 0 where
  pub raw_args : List String
  pub init : Bool
  pub args : Dict Value
  pub errors : List Complaint

-- What a plugin declares, by key: for the arguments, their names.
pub record Declared : Type 0 where
  pub mandatory : Option (List String)
  pub optional : Option (List String)
  pub description : Option String
  -- under the key "mandatory", which show_param_info reads
  pub lower_mandatory : Option (List String)

abbrev pub complain : Complaint → PluginParams → PluginParams
complain e p = record p { errors = p.errors ++ e ∷ [] }

unfoldable pub set_arg_error : Bool → PluginInfo → PluginInfo
set_arg_error e plugin = record plugin { arg_error = e }

-- The loop of process_args over the arguments; "O" asks for the options.
unfoldable pub process_raw : List String → PluginParams → Bool × PluginParams
unfolding split_on remove_all
process_raw [] p = (true, p)
process_raw (arg ∷ raw) p = elim (split_on 61 arg) [
  | name ∷ value ∷ chunks ↦ process_raw raw (
      if str_eq arg "O"
      then p
      else record p { args = insert name (text (tail (remove_all name arg))) p.args })
  | chunks ↦
      let rest = process_raw raw p in
      if str_eq arg "O" then rest else (false, complain (bad_format chunks) p)
]

unfoldable pub process_args : PluginParams → Bool × PluginParams
unfolding process_raw
process_args p = process_raw p.raw_args (record p { args = [] })

-- The first setting that is set, if there is one.
unfoldable pub default_arg_from_config : Config → List String → Option Value
default_arg_from_config config [] = none
default_arg_from_config config (setting ∷ settings) =
    let rest = default_arg_from_config config settings in
    if is_set config setting then get_val config setting else rest

-- The settings that a name is looked for under.
unfoldable pub config_default_order : PluginInfo → String → List String
config_default_order plugin name =
    cat plugin.code (cat "_" (cat plugin.type_of (cat "_" name)))
    ∷ cat plugin.code (cat "_" name)
    ∷ name
    ∷ []

-- The loop of get_arg_list over the names; `found` is `args`, and `none` the way through ret_arg_error.
unfoldable pub collect :
    Config
    → PluginInfo
    → (mandatory : Bool) → PluginParams
    → (found : Dict Value) → List String
    → Option (Dict Value) × PluginParams
unfolding default_arg_from_config config_default_order
collect config plugin mandatory p found [] = (some found, p)
collect config plugin mandatory p found (name ∷ names) = elim (lookup name p.args) [
  | some v ↦ collect config plugin mandatory p (insert name v found) names
  | none ↦ elim (default_arg_from_config config (config_default_order plugin name)) [
    | some v ↦ collect config plugin mandatory p (insert name v found) names
    | none ↦
        let rest = collect config plugin mandatory p found names in
        if mandatory then (none, complain (requires_argument name) p) else rest
  ]
]

abbrev pub or_arg_error :
    PluginInfo → Option (Dict Value) × PluginParams → Dict Value × PluginInfo × PluginParams
or_arg_error plugin (some args, p) = (args, plugin, p)
or_arg_error plugin (none, p) = ([], set_arg_error true plugin, p)

-- The arguments of the command line are processed at the first call only.
unfoldable pub get_arg_list :
    Config
    → List String
    → (mandatory : Bool) → PluginInfo
    → PluginParams
    → Dict Value × PluginInfo × PluginParams
unfolding process_args collect set_arg_error
get_arg_list config names mandatory plugin p =
    if p.init
    then or_arg_error plugin (collect config plugin mandatory p [] names)
    else (let (good, p') = process_args (record p { init = true }) in
        if good
        then or_arg_error plugin (collect config plugin mandatory p' [] names)
        else ([], set_arg_error true plugin, p'))

-- Missing arguments leave the error with the plugin and the result True.
unfoldable pub check_arg_list :
    Declared → PluginInfo → PluginParams → Bool × PluginInfo × PluginParams
unfolding set_arg_error
check_arg_list d plugin p =
    if is_some d.mandatory && is_some d.optional
    then (if is_some d.description
        then (true, plugin, p)
        else (false, set_arg_error true plugin, complain no_description p))
    else (true, set_arg_error true plugin, complain undeclared_arguments p)

-- Every way through show_param_info raises.
unfoldable pub show_param_info : Declared → Result (List (Dict Value))
show_param_info d =
    if is_some d.description && is_some d.lower_mandatory && is_some d.optional
    then err framework_abort
    else err key_error

-- add_to_dict and merge_dicts of owtf/utils/strings.py
unfoldable pub add_to_dict : Dict Value → Dict Value → Dict Value
add_to_dict [] to_dict = to_dict
add_to_dict ((k, v) ∷ from_dict) to_dict = add_to_dict from_dict (insert k v to_dict)

unfoldable pub merge_dicts : Dict Value → Dict Value → Dict Value
unfolding add_to_dict
merge_dicts a b = add_to_dict b (add_to_dict a [])

-- Joining with spaces.
unfoldable pub join_spaces : List String → String
join_spaces [] = ""
join_spaces (s ∷ []) = s
join_spaces (s ∷ t ∷ ss) = cat s (cat " " (join_spaces (t ∷ ss)))

-- str(value)
abbrev pub str_of : (show_list : List String → String) → Value → String
str_of show_list (text s) = s
str_of show_list (texts ss) = show_list ss
str_of show_list (flag true) = "True"
str_of show_list (flag false) = "False"

-- The loop of set_args_basic: `self.args[arg_name]` is an empty list where the name is not there, and
-- is stored.
unfoldable pub record_args :
    (show_list : List String → String) → Dict Value → Dict Value → List String × Dict Value
record_args show_list [] args = ([], args)
record_args show_list ((name, v) ∷ all) args = elim (lookup name args) [
  | some passed ↦
      let (strs, args') = record_args show_list all args in
      (cat name (cat "=" (str_of show_list passed)) ∷ strs, args')
  | none ↦
      let (strs, args') = record_args show_list all (insert name (texts []) args) in
      (cat name (cat "=" (show_list [])) ∷ strs, args')
]

unfoldable pub set_args_basic :
    (show_list : List String → String)
    → Dict Value
    → PluginInfo
    → PluginParams
    → List (Dict Value) × PluginInfo × PluginParams
unfolding record_args join_spaces
set_args_basic show_list [] plugin p = ([], plugin, p)
set_args_basic show_list (entry ∷ entries) plugin p =
    let (strs, args) = record_args show_list (entry ∷ entries) p.args in
    (
      (entry ∷ entries) ∷ [],
      record plugin { recorded = join_spaces strs },
      record p { args = args },
    )

-- set_config: the names get "_" in front, and no delimiters.
unfoldable pub set_config : Dict Value → Config → Config
unfolding set_string
set_config [] config = config
set_config ((name, v) ∷ args) config = set_config args (set_string (cat "_" name) v config)
