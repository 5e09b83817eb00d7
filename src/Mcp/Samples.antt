-- ===== src/Mcp/Samples.antt =====
-- A concrete JSON value for the tests of the MCP state (backend/src/mcp/state.rs).
use dbx_plugin_files.Prelude.{
  ℕ, ◌≡◌, refl, Bool, true, false, List, [], ◌∷◌, Option, none, some, if◌then◌else◌,
}
use dbx_plugin_files.Prelude.Text.{Text, text_eq}
use dbx_plugin_files.Prelude.Assoc.{text_key, find}
use dbx_plugin_files.Mcp.Json.{Json}

mutual
  pub data Node : Type 0 where
    null : Node
    number : ℕ → Node
    text : Text → Node
    object : Fields → Node

  pub data Fields : Type 0 where
    end : Fields
    field : Text → Node → Fields → Fields

abbrev pub to_fields : List (Text × Node) → Fields
to_fields [] = Fields.end
to_fields ((key, value) ∷ fields) = Fields.field key value (to_fields fields)

abbrev pub find_field : Text → Fields → Option Node
find_field key Fields.end = none
find_field key (Fields.field other value fields) =
    if text_eq other key then some value else find_field key fields

abbrev pub node_lookup : Text → Node → Option Node
node_lookup key (Node.object fields) = find_field key fields
node_lookup key _ = none

abbrev pub node_is_null : Node → Bool
node_is_null Node.null = true
node_is_null _ = false

abbrev pub node_as_u64 : Node → Option ℕ
node_as_u64 (Node.number n) = some n
node_as_u64 _ = none

abbrev pub node_as_str : Node → Option Text
node_as_str (Node.text s) = some s
node_as_str _ = none

pub find_field-to_fields :
    (key : Text) (fields : List (Text × Node)) → find_field key (to_fields fields) ≡ find key fields
unfolding find
find_field-to_fields key [] = refl
find_field-to_fields key ((other, value) ∷ fields) = rw (find_field-to_fields key fields) refl

pub node_as_u64_null : (value : Node) → node_is_null value ≡ true → node_as_u64 value ≡ none
node_as_u64_null Node.null h = refl
node_as_u64_null (Node.number n) h = absurd (cc)
node_as_u64_null (Node.text s) h = absurd (cc)
node_as_u64_null (Node.object fields) h = absurd (cc)

abbrev pub nodes : Json
nodes = record {
  Value = Node;
  lookup = node_lookup;
  is_null = node_is_null;
  as_u64 = node_as_u64;
  as_str = node_as_str;
  as_integral = λ value. none;
  object = λ fields. Node.object (to_fields fields);
  number = Node.number;
  lookup-object = find_field-to_fields;
  as_u64-number = λ n h. refl;
  as_u64-null = node_as_u64_null;
}
