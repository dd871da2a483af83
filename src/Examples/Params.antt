-- ===== src/Examples/Params.antt =====
-- Examples of owtf.Config and owtf.Params.

use owtf.Base.{String, ◌≡◌, refl, str_eq, true, false, none, some, List, [], ◌∷◌, map}
use owtf.Base.Dict.{Dict}
use owtf.Config.{Value, text, flag, Config, set_val, get_val}
use owtf.Config.Reading.{get_val-set_val}
use owtf.Exceptions.{ok}
use owtf.Params.{PluginInfo, PluginParams, process_args, get_arg_list, set_config}
use owtf.Params.Passed.{
  Given, written, process_args-written, get_arg_list-set_args_basic, get_val-set_config,
}
use owtf.Params.Repeat.{set_args}
use owtf.Params.Repeat.Never.{set_args-never}

abbrev configured : Config
configured = record { string = ("@@@SMB_HOST@@@", text "10.0.0.1") ∷ []; other = [] }

get_val-set_val_example :
    get_val (set_val "SMB_HOST" (flag true) configured) "SMB_HOST" ≡ some (text "10.0.0.1")
unfolding owtf.Base.Dict.lookup owtf.Config.pad_key
get_val-set_val_example = (get_val-set_val configured "SMB_HOST" (flag true)).0

abbrev typed : List Given
typed = ("H", "OST", "a=b") ∷ ("P", "ORT", "80") ∷ []

abbrev fresh : PluginParams
fresh = record { raw_args = map written typed; init = false; args = []; errors = [] }

process_args_example :
    process_args fresh
    ≡ (true, record fresh { args = ("HOST", text "a=b") ∷ ("PORT", text "80") ∷ [] })
unfolding owtf.Base.Text.begins owtf.Base.Dict.insert
process_args_example = process_args-written typed fresh ((refl, refl), ((refl, refl), tt)) refl

abbrev smb : PluginInfo
smb = record { code = "OWTF-SMB-001"; type_of = "smb"; arg_error = false; recorded = "" }

abbrev shown : List String → String
shown _ = "[]"

abbrev begun : PluginParams
begun = record fresh { init = true }

default_example :
    get_arg_list configured ("SMB_HOST" ∷ []) true smb begun
    ≡ (("SMB_HOST", text "10.0.0.1") ∷ [], smb, begun)
unfolding owtf.Base.Dict.lookup owtf.Params.default_arg_from_config owtf.Params.config_default_order
    owtf.Config.is_set get_val
default_example =
    (get_arg_list-set_args_basic configured shown "SMB_HOST" (text "10.0.0.1") smb begun refl refl
      refl).0

abbrev repeated : Dict Value
repeated = ("SMB_HOST", text "a,b") ∷ ("REPEAT_DELIM", text ",") ∷ []

set_args_example : (set_args shown 100 repeated smb begun).0 ≡ ok none
unfolding owtf.Params.Repeat.get_permutations owtf.Base.Dict.lookup
set_args_example =
    set_args-never shown 100 ("SMB_HOST", text "a,b") (("REPEAT_DELIM", text ",") ∷ []) smb begun
      (("SMB_HOST", "a" ∷ "b" ∷ []) ∷ []) refl

get_val-set_config_example :
    get_val (set_config repeated configured) "SMB_HOST" ≡ get_val configured "SMB_HOST"
get_val-set_config_example = get_val-set_config repeated configured "SMB_HOST"
