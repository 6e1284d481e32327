-- ===== src/Frontend/Script.antt =====
-- What App.tsx asks of a JSON value: a property, a `typeof` test, `===`, `trim` and `length`. The
-- outer Result is for an exception, the inner Option for `undefined`.
use vtnet.Base.{
  ℕ, ◌+◌, Bool, true, false, not, ◌&&◌, ◌||◌, Option, none, some, [], ◌∷◌, Result, ok, err, ◌==◌,
  nat_eq, text_eq, leb, ltb, if◌then◌else◌,
}
use vtnet.Text.{Text}
use vtnet.Shared.Json.{Value, null, number, other_number, string, array, object, Fields, end, field}

pub data Thrown : Type 0 where
  type_error : Thrown

unfoldable pub find : Text → Fields → Option Value
find name end = none
find name (field key value rest) =
    let later = find name rest in if key == name then some value else later

-- `value[name]`, for the names that App.tsx reads, none of which a prototype has.
unfoldable pub property : Text → Value → Result (Option Value) Thrown
unfolding find
property name null = err type_error
property name (object fields) = ok (find name fields)
property name _ = ok none

-- `value?` is undefined: its properties throw.
unfoldable pub property_of : Text → Option Value → Result (Option Value) Thrown
unfolding property
property_of name none = err type_error
property_of name (some value) = property name value

-- `value === "text"`
unfoldable pub is_text : Option Value → Text → Bool
is_text (some (string value)) t = value == t
is_text _ t = false

-- The text, if `typeof value === "string"`.
unfoldable pub as_text : Option Value → Option Text
as_text (some (string value)) = some value
as_text _ = none

-- The value, if `typeof value === "number"`.
unfoldable pub as_number : Option Value → Option Value
as_number (some (number n)) = some (number n)
as_number (some (other_number t)) = some (other_number t)
as_number _ = none

-- The value, if it is truthy and `typeof value === "object"`.
unfoldable pub as_object : Option Value → Option Value
as_object (some (object fields)) = some (object fields)
as_object (some (array items)) = some (array items)
as_object _ = none

-- `value === nullable`, where the right side is a string or null.
unfoldable pub is_same : Option Value → Option Text → Bool
is_same (some (string value)) (some t) = value == t
is_same (some null) none = true
is_same _ _ = false

-- The value of a string or null.
abbrev pub nullable : Option Text → Value
nullable none = null
nullable (some t) = string t

-- `String.prototype.trim` takes away the white space and the line terminators of ECMAScript.
unfoldable pub is_script_space : ℕ → Bool
is_script_space c =
    leb 0x09 c && leb c 0x0d
    || c == 0x20
    || c == 0xa0
    || c == 0x1680
    || leb 0x2000 c && leb c 0x200a
    || c == 0x2028
    || c == 0x2029
    || c == 0x202f
    || c == 0x205f
    || c == 0x3000
    || c == 0xfeff

-- `value.trim()` is truthy: some character is left.
unfoldable pub has_visible : Text → Bool
unfolding is_script_space
has_visible [] = false
has_visible (c ∷ t) = not (is_script_space c) || has_visible t

-- `value.length`, in UTF-16 units.
unfoldable pub utf16_len : Text → ℕ
utf16_len [] = 0
utf16_len (c ∷ t) = (if ltb c 0x10000 then 1 else 2) + utf16_len t
