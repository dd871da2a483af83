-- ===== src/Config.antt =====
-- The configuration in memory of owtf/config.py: a dictionary for each of the two types, whose
-- keys are written between delimiters. `show`, get_as_list and the lists of ports are left out.

pub mod Reading
use owtf.Base.{String, Bool, Option, none, some, List, ◌||◌, is_some}
use owtf.Base.Text.{cat}
use owtf.Base.Dict.{Dict, lookup, insert}

-- What is stored: a text, a list of texts, or a flag.
pub data Value : Type 0 where
  text : String → Value
  texts : List String → Value
  flag : Bool → Value

-- `self.config`, by type; CONFIG_TYPES has these two in this order.
pub record Config : Type 0 where
  pub string : Dict Value
  pub other : Dict Value

unfoldable pub pad_key : String → String
pad_key key = cat "@@@" (cat key "@@@")

unfoldable pub is_set : Config → String → Bool
unfolding pad_key
is_set c key = is_some (lookup (pad_key key) c.string) || is_some (lookup (pad_key key) c.other)

-- None if no type has the key; no KeyError is raised.
unfoldable pub get_key_val : Config → String → Option Value
get_key_val c key = elim (lookup key c.string) [ some v ↦ some v | none ↦ lookup key c.other ]

unfoldable pub get_val : Config → String → Option Value
unfolding pad_key get_key_val
get_val c key = get_key_val c (pad_key key)

-- set_general_val("string", key, value)
unfoldable pub set_string : String → Value → Config → Config
set_string key v c = record c { string = insert key v c.string }

unfoldable pub set_other : String → Value → Config → Config
set_other key v c = record c { other = insert key v c.other }

-- Only a text goes to the type "string".
unfoldable pub set_val : String → Value → Config → Config
unfolding pad_key set_string set_other
set_val key (text s) c = set_string (pad_key key) (text s) c
set_val key (texts ss) c = set_other (pad_key key) (texts ss) c
set_val key (flag b) c = set_other (pad_key key) (flag b) c
