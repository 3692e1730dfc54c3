-- ===== src/Dht/Json.antt =====
-- What encoding/json leaves in an `interface{}`, and the type assertions with which
-- internal/dht/rpc.go reads it.
use mini_ipfs.Prelude.{Option, none, some, eq_bytes, if◌then◌else◌, Bytes}

-- `other` is null, a truth value or a number, which the handlers only tell from the rest.
mutual
  pub data Json : Type 0 where
    other : Json
    text : Bytes → Json
    array : Items → Json
    object : Fields → Json

  pub data Items : Type 0 where
    nil : Items
    item : Json → Items → Items

  pub data Fields : Type 0 where
    end : Fields
    field : Bytes → Json → Fields → Fields

-- The reading of a map: nil without the key.
unfoldable pub get_field : Bytes → Fields → Json
get_field name end = other
get_field name (field key value fields) = if eq_bytes name key then value else get_field name fields

-- `value.(string)`
abbrev pub as_text : Json → Option Bytes
as_text (text t) = some t
as_text _ = none

-- `value.(map[string]interface{})`
abbrev pub as_object : Json → Option Fields
as_object (object fields) = some fields
as_object _ = none

-- `value.([]interface{})`
abbrev pub as_array : Json → Option Items
as_array (array items) = some items
as_array _ = none
