-- ===== src/Mcp/Json.antt =====
-- JSON values as the MCP tools use them: the accessors of the serde_json crate that
-- backend/src/mcp/state.rs calls, with their documented laws.
use dbx_plugin_files.Prelude.{ℕ, ◌^◌, ◌<◌, ◌≡◌, Bool, true, List, Option, none, some}
use dbx_plugin_files.Prelude.Text.{Text}
use dbx_plugin_files.Prelude.Assoc.{text_key, find}

pub record Json : Type 1 where
  pub Value : Type 0
  -- `value.get(key)`, `value.is_null()`, `value.as_u64()`, `value.as_str()`.
  pub lookup : Text → Value → Option Value
  pub is_null : Value → Bool
  pub as_u64 : Value → Option ℕ
  pub as_str : Value → Option Text
  -- A number that is an integral float between 0 and 2^64: `as_f64` with the test on `fract`.
  pub as_integral : Value → Option ℕ
  -- `json!({ … })` and `json!(n)`.
  pub object : List (Text × Value) → Value
  pub number : ℕ → Value
  pub lookup-object :
      (key : Text) (fields : List (Text × Value)) → lookup key (object fields) ≡ find key fields
  pub as_u64-number : (n : ℕ) → n < 2 ^ 64 → as_u64 (number n) ≡ some n
  pub as_u64-null : (value : Value) → is_null value ≡ true → as_u64 value ≡ none
