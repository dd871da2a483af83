-- ===== src/Params/Passed.antt =====
-- What a plugin is given (owtf/plugin/params.py) of the command line and of the configuration.

use owtf.Base.{
  String, ◌≡◌, refl, sym, ap, ◌∙◌, inl, inr, Bool, true, false, none, some, List, [], ◌∷◌, map,
  arith, str_eq, eq_iff, Bool-cases, All, ℕ, ◌==◌,
}
use Prim.Native.Char.{Char, code}
use owtf.Base.Text.{cat, has_char, occurs, split_on, split_on-cat, remove_all-cat}
use owtf.Base.Dict.{Dict, lookup, insert, lookup-insert_other, lookup-insert}
use owtf.Config.{Value, text, texts, Config, pad_key, get_val, get_key_val, set_string}
use owtf.Params.{
  PluginInfo, PluginParams, process_raw, process_args, collect, default_arg_from_config,
  config_default_order, get_arg_list, or_arg_error, set_args_basic, record_args, set_config,
}

-- A name, which is not empty, and a value.
abbrev pub Given : Type 0
Given = Char × String × String

abbrev pub name_of : Given → String
name_of (c, p, v) = String.◌∷◌ c p

-- As it stands on the command line
abbrev pub written : Given → String
written (c, p, v) = cat (String.◌∷◌ c p) (cat "=" v)

-- No "=" in the name, and no name in the value.
abbrev pub IsPlain : Given → Type 0
IsPlain (c, p, v) =
    (has_char 61 (String.◌∷◌ c p) ≡ false) × (occurs (String.◌∷◌ c p) (cat "=" v) ≡ false)

-- The arguments as a dictionary, a later one over an earlier one of its name.
abbrev pub dict_of : List Given → Dict Value → Dict Value
dict_of [] d = d
dict_of ((c, p, v) ∷ given) d = dict_of given (insert (String.◌∷◌ c p) (text v) d)

split_on-more :
    (c : ℕ) (s : String)
    → (chunk : String) × (chunks : List String) × (split_on c s ≡ chunk ∷ chunks)
unfolding split_on
split_on-more c String.[] = ("", [], refl)
split_on-more c (String.◌∷◌ d s) = elim (Bool-cases (code d == c)) [
  | inl e ↦ ("", split_on c s, rw e refl)
  | inr e ↦
      let (chunk, chunks, found) = split_on-more c s in
      (String.◌∷◌ d chunk, chunks, rw (e, found) refl)
]

-- An argument with "=" is not "O".
not_options :
    (s name value : String) (chunks : List String)
    → split_on 61 s ≡ name ∷ value ∷ chunks
    → str_eq s "O" ≡ false
unfolding split_on
not_options s name value chunks e = elim (Bool-cases (str_eq s "O")) [
  | inr h ↦ h
  | inl h ↦
      let same : s ≡ "O" = (eq_iff s "O").0 h in
      let one : split_on 61 "O" ≡ "O" ∷ [] = refl in
      let both : "O" ∷ [] ≡ name ∷ value ∷ chunks = sym one ∙ ap (split_on 61) (sym same) ∙ e in
      absurd (cc)
]

process_raw-written :
    (given : List Given) (p : PluginParams)
    → All IsPlain given
    → process_raw (map written given) p ≡ (true, record p { args = dict_of given p.args })
unfolding process_raw
process_raw-written [] p h = refl
process_raw-written ((c, q, v) ∷ given) p h =
    let name : String = String.◌∷◌ c q in
    let arg : String = cat name (cat "=" v) in
    let (chunk, chunks, more) = split_on-more 61 v in
    let parts : split_on 61 arg ≡ name ∷ chunk ∷ chunks =
      split_on-cat 61 name v (h.0.0) "=" refl ∙ ap (λ l. name ∷ l) more in
    let passed = not_options arg name chunk chunks parts in
    let value = remove_all-cat c q (cat "=" v) (h.0.1) in
    rw (process_raw, parts, passed, value)
      (process_raw-written given (record p { args = insert name (text v) p.args }) (h.1))

-- Arguments NAME=VALUE, where no name has "=" in it or occurs in its own value, are read as the values of
-- the names, a later one over an earlier one.
pub process_args-written :
    (given : List Given) (p : PluginParams)
    → All IsPlain given
    → p.raw_args ≡ map written given
    → process_args p ≡ (true, record p { args = dict_of given [] })
unfolding process_args
process_args-written given p h e =
    ap (λ raw. process_raw raw (record p { args = [] })) e
    ∙ process_raw-written given (record p { args = [] }) h

-- After the first call the arguments of the command line are not processed again.
get_arg_list-begun :
    (config : Config) (names : List String) (mandatory : Bool) (plugin : PluginInfo)
    (p : PluginParams)
    → p.init ≡ true
    → get_arg_list config names mandatory plugin p
      ≡ or_arg_error plugin (collect config plugin mandatory p [] names)
unfolding get_arg_list
get_arg_list-begun config names mandatory plugin p begun = ground (arith, begun)

-- Once the command line was processed: a plugin with one argument, which was not passed and is set in
-- the configuration, is given what is set. The run of the plugin then stores an empty list under the
-- name, and after it the plugin is given the empty list and not what is set.
pub get_arg_list-set_args_basic :
    (config : Config) (show_list : List String → String) (name : String) (v : Value)
    (plugin : PluginInfo) (p : PluginParams)
    → p.init ≡ true
    → lookup name p.args ≡ none
    → default_arg_from_config config (config_default_order plugin name) ≡ some v
    → (get_arg_list config (name ∷ []) true plugin p ≡ ((name, v) ∷ [], plugin, p))
      × (p' : PluginParams) × ((set_args_basic show_list ((name, v) ∷ []) plugin p).2 ≡ p')
      × (get_arg_list config (name ∷ []) true plugin p' ≡ ((name, texts []) ∷ [], plugin, p'))
unfolding get_arg_list collect set_args_basic record_args insert
get_arg_list-set_args_basic config show_list name v plugin p begun missing set =
    let there = lookup-insert name (texts []) p.args in
    (
      get_arg_list-begun config (name ∷ []) true plugin p begun ∙ rw (collect, missing, set) refl,
      record p { args = insert name (texts []) p.args },
      rw (set_args_basic, record_args, missing) refl,
      get_arg_list-begun config (name ∷ []) true plugin
            (record p { args = insert name (texts []) p.args }) begun
          ∙ rw (collect, there) refl,
    )

first : String → ℕ
first String.[] = 0
first (String.◌∷◌ c s) = code c

unpadded : (name key : String) → str_eq (cat "_" name) (pad_key key) ≡ false
unfolding pad_key first
unpadded name key = elim (Bool-cases (str_eq (cat "_" name) (pad_key key))) [
  | inr h ↦ h
  | inl h ↦
      let same = (eq_iff (cat "_" name) (pad_key key)).0 h in
      let codes : ◌≡◌ {A = ℕ} 95 64 = ap first same in absurd (omega (arith, codes))
]

-- Whatever arguments set_config is called with, every key of the configuration reads as before.
pub get_val-set_config :
    (args : Dict Value) (config : Config) (key : String)
    → get_val (set_config args config) key ≡ get_val config key
unfolding set_config get_val get_key_val set_string
get_val-set_config [] config key = refl
get_val-set_config ((name, v) ∷ args) config key =
    get_val-set_config args (set_string (cat "_" name) v config) key
    ∙ rw
        (
          get_val,
          get_key_val,
          set_string,
          lookup-insert_other (cat "_" name) (pad_key key) v config.string (unpadded name key),
        )
        refl
