-- ===== src/Extract/Values.antt =====
-- How backend/services/extract.py reads the values in a line of a transcript. Extract/Reads says where the code
-- raises an error since a block, a question or an option is no object; what is read here of such a value is
-- then not used. The texts of numbers and of other
-- values, the JSON text of a tool's arguments and the two substitutions of `clean_request` are parameters.
use Prim.Native.Char.{Char}
use knowledgebase_storage.Common.{
  ℕ, String, Bool, true, false, not, Option, none, some, List, [], ◌∷◌, ◌==◌, if◌then◌else◌,
}
use knowledgebase_storage.Models.Json.{
  Json, null, bool, number, text, array, object, Items, end_items, item, end_fields, field, Message,
  get,
}
use knowledgebase_storage.Queue.Service.{str}
use knowledgebase_storage.Extract.{flatten, clean_request}

-- `value or {}` of a value that is an object or false for Python
unfoldable pub object_of : Option Json → Message
object_of (some (object fields)) = fields
object_of value = end_fields

-- `… for part in parts if isinstance(part, dict)`, which is `… for part in parts` where all are objects
unfoldable pub objects_in : Items → List Message
objects_in end_items = []
objects_in (item (object fields) rest) = fields ∷ objects_in rest
objects_in (item value rest) = objects_in rest

unfoldable pub objects_of : Option Json → List Message
unfolding objects_in
objects_of (some (array items)) = objects_in items
objects_of value = []

-- `value == word` of a value that may be no text
unfoldable pub is_word_of : String → Option Json → Bool
is_word_of word (some (text s)) = s == word
is_word_of word value = false

unfoldable pub texts_of : (Json → String) → List Message → List String
unfolding str get
texts_of shown [] = []
texts_of shown (m ∷ ms) = str shown (get "text" m) ∷ texts_of shown ms

-- What the code takes from Python for texts.
pub record Texts : Type 0 where
  pub is_space : Char → Bool
  pub shown : Json → String
  pub is_zero : String → Bool
  pub dumped : Json → String
  pub without_noise : String → String
  pub with_commands : String → String

module _ (p : Texts) where
  -- whether a value is true for Python
  unfoldable pub truthy : Option Json → Bool
  truthy none = false
  truthy (some null) = false
  truthy (some (bool b)) = b
  truthy (some (number n)) = not (p.is_zero n)
  truthy (some (text s)) = not (s == "")
  truthy (some (array end_items)) = false
  truthy (some (array (item j rest))) = true
  truthy (some (object end_fields)) = false
  truthy (some (object (field k v rest))) = true

  -- `str(value or "")`
  unfoldable pub str_or_empty : Option Json → String
  unfolding truthy str
  str_or_empty value = if truthy value then str p.shown value else ""

  -- `a or b`
  unfoldable pub either : (a b : Option Json) → Option Json
  unfolding truthy
  either a b = if truthy a then a else b

  abbrev pub flat : String → ℕ → String
  flat = flatten p.is_space

  abbrev pub cleaned : String → String
  cleaned = clean_request p.is_space p.without_noise p.with_commands

  -- the text of a value in an f-string
  unfoldable pub formatted : Option Json → String
  unfolding str
  formatted none = "None"
  formatted (some v) = str p.shown (some v)
