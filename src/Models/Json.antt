-- ===== src/Models/Json.antt =====
-- The values that a transcript's messages and a job's checkpoint hold (JSONB columns).
use knowledgebase_storage.Common.{String, Bool, ◌==◌, if◌then◌else◌, Option, none, some}

-- A number is kept as its text: nothing here computes with it.
mutual
  pub data Json : Type 0 where
    null : Json
    bool : Bool → Json
    number : String → Json
    text : String → Json
    array : Items → Json
    object : Fields → Json

  pub data Items : Type 0 where
    end_items : Items
    item : Json → Items → Items

  pub data Fields : Type 0 where
    end_fields : Fields
    field : String → Json → Fields → Fields

abbrev pub Message : Type 0
Message = Fields

-- `message.get(name)`
unfoldable pub get : String → Message → Option Json
get name end_fields = none
get name (field k v rest) = let found = get name rest in if k == name then some v else found
