-- ===== src/Python/Json.antt =====
-- Parsed JSON, and what the code does with the objects that `json` makes of it.
use event_creator.Prelude.{ℕ, Bool, true, false, not, List, [], ◌∷◌, Option, none, some}
use event_creator.Python.Text.{Text, text_eq, lit}
use event_creator.Python.Exception.{Result, ok, err, other}

mutual
  pub data Value : Type 0 where
    null : Value
    boolean : Bool → Value
    number : Text → Value
    string : Text → Value
    array : Items → Value
    object : Fields → Value

  pub data Items : Type 0 where
    nil : Items
    cons : Value → Items → Items

  pub data Fields : Type 0 where
    end : Fields
    field : Text → Value → Fields → Fields

-- `d.get(key)`: the last field with the name, which is the one that `json` keeps.
unfoldable pub get : Text → Fields → Option Value
get key end = none
get key (field name value fields) = elim (get key fields) [
  | some later ↦ some later
  | none ↦ elim (text_eq name key) [ true ↦ some value | false ↦ none ]
]

-- `d.get(key)` of a value: what is no object has no `get`.
unfoldable pub get_value : Text → Value → Result (Option Value)
get_value key (object fields) = ok (get key fields)
get_value key _ = err (other (lit "AttributeError"))

unfoldable pub present : Text → Option Value → Result Value
present key (some value) = ok value
present key none = err (other (lit "KeyError"))

-- `d[key]`
unfoldable pub item : Text → Value → Result Value
item key (object fields) = present key (get key fields)
item key _ = err (other (lit "TypeError"))

-- The elements of an array, which a `for` goes through.
unfoldable pub items : Items → List Value
items nil = []
items (cons value rest) = value ∷ items rest

unfoldable pub iterate : Value → Result (List Value)
iterate (array elements) = ok (items elements)
iterate _ = err (other (lit "TypeError"))

-- Of a value that is no string, `str` and `int` and the test whether a number is zero.
pub record Builtins : Type 0 where
  pub repr : Value → Text
  pub int : Value → Result ℕ
  pub is_zero : Text → Bool

module _ (python : Builtins) where
  unfoldable pub str : Value → Text
  str (string t) = t
  str value = python.repr value

  -- `if value`
  unfoldable pub truthy : Value → Bool
  truthy null = false
  truthy (boolean b) = b
  truthy (number t) = not (python.is_zero t)
  truthy (string []) = false
  truthy (string (c ∷ t)) = true
  truthy (array nil) = false
  truthy (array (cons value rest)) = true
  truthy (object end) = false
  truthy (object (field name value rest)) = true
