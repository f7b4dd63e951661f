-- ===== src/Prelude/Document.antt =====
-- The values that `yaml.safe_load` and `json.loads` return, and what the code reads from them.
use Prim.Native.Nat.{ℕ, suc}
use Prim.Native.String.{String}
use mathlib.Core.Bool.{Bool, true, false, ◌&&◌, ◌||◌}
use mathlib.Core.Option.{Option, none, some}
use mathlib.Core.List.{List, [], ◌∷◌}
use go2_local_navigation.Prelude.Tests.{if◌then◌else◌}
use go2_local_navigation.Prelude.Int.{ℤ, pos}
use go2_local_navigation.Prelude.Text.{str_eq, elem_str}

-- A value of the document; the entries of a mapping are in the order of the dictionary.
mutual
  pub data YamlValue (F : Type 0) : Type 0 where
    null : YamlValue F
    boolean : Bool → YamlValue F
    integer : ℤ → YamlValue F
    number : F → YamlValue F
    text : String → YamlValue F
    sequence : Values F → YamlValue F
    mapping : Entries F → YamlValue F

  pub data Values (F : Type 0) : Type 0 where
    no_values : Values F
    value : YamlValue F → Values F → Values F

  pub data Entries (F : Type 0) : Type 0 where
    no_entries : Entries F
    entry : YamlValue F → YamlValue F → Entries F → Entries F

module _ {F : Type 0} where
  abbrev pub is_text : YamlValue F → Bool
  is_text (text s) = true
  is_text _ = false

  abbrev pub all_keys_text : Entries F → Bool
  all_keys_text no_entries = true
  all_keys_text (entry k v es) = is_text k && all_keys_text es

  abbrev pub is_key : String → YamlValue F → Bool
  is_key name (text s) = str_eq s name
  is_key name _ = false

  -- `mapping.get(name)`: None where the key is missing
  abbrev pub get : String → Entries F → YamlValue F
  get name no_entries = null
  get name (entry k v es) = let rest = get name es in if is_key name k then v else rest

  -- `name in mapping`
  abbrev pub has_key : String → Entries F → Bool
  has_key name no_entries = false
  has_key name (entry k v es) = is_key name k || has_key name es

  -- `set(mapping) <= names`
  abbrev pub keys_within : List String → Entries F → Bool
  keys_within names no_entries = true
  keys_within names (entry (text s) v es) = elem_str s names && keys_within names es
  keys_within names (entry k v es) = false

  -- `names <= set(mapping)`
  abbrev pub has_keys : List String → Entries F → Bool
  has_keys [] es = true
  has_keys (name ∷ names) es = has_key name es && has_keys names es

  -- a str that is not empty
  abbrev pub nonempty_text : YamlValue F → Option String
  nonempty_text (text s) = if str_eq s "" then none else some s
  nonempty_text _ = none

  -- an int, and not a bool, that is at least 0
  abbrev pub natural : YamlValue F → Option ℕ
  natural (integer (pos n)) = some n
  natural _ = none

  -- an int, and not a bool, that is above 0
  abbrev pub positive_natural : YamlValue F → Option ℕ
  positive_natural (integer (pos (suc n))) = some (suc n)
  positive_natural _ = none
