-- ===== src/Json.antt =====
-- serde_json's `Value`. A number is the text that it prints as; an object's keys differ.
use pg_mnestic.Prelude.{
  Bool, true, false, ◌||◌, [], ◌∷◌, Option, none, some, if◌then◌else◌, ◌==◌, ◌&&◌,
}
use pg_mnestic.Text.{Text, text_eq}

mutual
  pub data Json : Type 0 where
    null : Json
    boolean : Bool → Json
    number : Text → Json
    string : Text → Json
    array : Items → Json
    object : Fields → Json

  pub data Items : Type 0 where
    end : Items
    item : Json → Items → Items

  pub data Fields : Type 0 where
    no_more : Fields
    field : Text → Json → Fields → Fields

unfoldable pub find_field : Text → Fields → Option Json
find_field key no_more = none
find_field key (field k v fs) = if text_eq k key then some v else find_field key fs

-- `Value::get`.
unfoldable pub get_key : Text → Json → Option Json
unfolding find_field
get_key key (object fs) = find_field key fs
get_key key _ = none

-- `v.as_str()` of an item equals the text.
abbrev pub is_string : Text → Json → Bool
is_string t (string s) = text_eq s t
is_string t _ = false

unfoldable pub has_string : Text → Items → Bool
has_string t end = false
has_string t (item j js) = is_string t j || has_string t js

unfoldable pub starts_with : Text → Text → Bool
starts_with [] s = true
starts_with (p ∷ ps) [] = false
starts_with (p ∷ ps) (c ∷ s) = p == c && starts_with ps s

-- `str::contains`.
unfoldable pub contains : Text → Text → Bool
unfolding starts_with
contains [] t = starts_with t []
contains (c ∷ s) t = starts_with t (c ∷ s) || contains s t
