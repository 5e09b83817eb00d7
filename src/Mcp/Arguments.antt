-- ===== src/Mcp/Arguments.antt =====
-- The argument readers of backend/src/mcp/mod.rs that the tools start with.
use dbx_plugin_files.Prelude.{
  ℕ, List, [], ◌∷◌, Option, none, some, if◌then◌else◌, Result, ok, err, ◌>>=◌,
}
use dbx_plugin_files.Prelude.Text.{Text, trim, parse_u64}
use dbx_plugin_files.Mcp.Json.{Json}

-- Refusals of arguments.
pub data ArgumentError : Type 0 where
  missing_parameters : List Text → ArgumentError
  missing_parameter : Text → ArgumentError
  not_a_text : Text → ArgumentError
  not_a_number : Text → ArgumentError

module _ (json : Json) where
  open json use {Value, lookup, is_null, as_u64, as_str, as_integral}

  -- `None | Some(Value::Null)`.
  unfoldable pub present : Text → Value → Option Value
  present key arguments = elim (lookup key arguments) [
    | none ↦ none
    | some field ↦ if is_null field then none else some field
  ]

  unfoldable pub required_str : Text → Value → Result ArgumentError Text
  unfolding present
  required_str key arguments = elim (present key arguments) [
    | none ↦ err (ArgumentError.missing_parameter key)
    | some field ↦ (elim (as_str field) [
      | some (c ∷ text) ↦ ok (c ∷ text)
      | _ ↦ err (ArgumentError.not_a_text key)
    ])
  ]

  unfoldable pub missing_keys : List Text → Value → List Text
  unfolding present
  missing_keys [] arguments = []
  missing_keys (key ∷ keys) arguments =
      let rest = missing_keys keys arguments in
      (elim (present key arguments) [ none ↦ key ∷ rest | some field ↦ rest ])

  unfoldable pub missing_required : List Text → Value → Result ArgumentError (Unit {0})
  unfolding missing_keys
  missing_required keys arguments = elim (missing_keys keys arguments) [
    | [] ↦ ok tt
    | key ∷ missing ↦ err (ArgumentError.missing_parameters (key ∷ missing))
  ]

  -- A blank text counts as absent.
  unfoldable pub text_number : Text → Text → Result ArgumentError (Option ℕ)
  text_number key text = elim (trim text) [
    | [] ↦ ok none
    | c ∷ digits ↦ (elim (parse_u64 (c ∷ digits)) [
      | none ↦ err (ArgumentError.not_a_number key)
      | some n ↦ ok (some n)
    ])
  ]

  -- A number or a text of digits; `as_integral` is the reading of an integral float.
  unfoldable pub numeric_arg_u64 : Text → Value → Result ArgumentError (Option ℕ)
  unfolding present text_number
  numeric_arg_u64 key arguments = elim (present key arguments) [
    | none ↦ ok none
    | some field ↦ (elim (as_u64 field) [
      | some n ↦ ok (some n)
      | none ↦ (elim (as_integral field) [
        | some n ↦ ok (some n)
        | none ↦ (elim (as_str field) [
          | some text ↦ text_number key text
          | none ↦ err (ArgumentError.not_a_number key)
        ])
      ])
    ])
  ]

  unfoldable pub numeric_arg_or : Text → ℕ → Value → Result ArgumentError ℕ
  unfolding numeric_arg_u64
  numeric_arg_or key default arguments =
      numeric_arg_u64 key arguments >>= λ n. (elim n [ none ↦ ok default | some value ↦ ok value ])
