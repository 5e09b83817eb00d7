-- ===== src/Mcp/Settings.antt =====
-- `McpSettings` of backend/src/mcp/state.rs: the operator's limits, loaded, clamped and updated.
use dbx_plugin_files.Prelude.{
  ℕ, ◌*◌, min, max, ◌||◌, List, [], ◌∷◌, Option, none, some, ltb, if◌then◌else◌, Result, ok, err,
  ◌>>=◌,
}
use dbx_plugin_files.Prelude.Text.{Text, codes}
use dbx_plugin_files.Mcp.Json.{Json}

abbrev pub report_wait_millis_ceiling : ℕ
report_wait_millis_ceiling = 30000

abbrev pub cell_width_ceiling : ℕ
cell_width_ceiling = 2000

abbrev pub group_limit : ℕ
group_limit = 20

abbrev pub top_n_limit : ℕ
top_n_limit = 10

abbrev pub sample_rows_limit : ℕ
sample_rows_limit = 5

abbrev pub rows_format_limit : ℕ
rows_format_limit = 20

abbrev pub max_response_bytes_ceiling : ℕ
max_response_bytes_ceiling = 1024 * 1024

abbrev pub max_cursor_rows_ceiling : ℕ
max_cursor_rows_ceiling = 100000

abbrev pub cursor_ttl_secs_ceiling : ℕ
cursor_ttl_secs_ceiling = 3600

abbrev pub max_cursor_sessions_ceiling : ℕ
max_cursor_sessions_ceiling = 32

abbrev pub confirm_ttl_secs_ceiling : ℕ
confirm_ttl_secs_ceiling = 600

pub record McpSettings : Type 0 where
  pub report_wait_millis : ℕ
  pub cell_width : ℕ
  pub digest_group_limit : ℕ
  pub digest_top_n : ℕ
  pub digest_sample_rows : ℕ
  pub digest_row_limit : ℕ
  pub response_limit_bytes : ℕ
  pub max_cursor_rows : ℕ
  pub cursor_ttl_secs : ℕ
  pub max_cursor_sessions : ℕ
  pub confirm_ttl_secs : ℕ

-- `McpSettings::default()`.
abbrev pub default_settings : McpSettings
default_settings = record {
  report_wait_millis = 5000;
  cell_width = 120;
  digest_group_limit = group_limit;
  digest_top_n = top_n_limit;
  digest_sample_rows = sample_rows_limit;
  digest_row_limit = rows_format_limit;
  response_limit_bytes = 16 * 1024;
  max_cursor_rows = 10000;
  cursor_ttl_secs = 600;
  max_cursor_sessions = 8;
  confirm_ttl_secs = 60;
}

-- `value.clamp(low, high)`.
abbrev pub clamp : ℕ → ℕ → ℕ → ℕ
clamp low high value = min high (max low value)

unfoldable pub sanitized : McpSettings → McpSettings
sanitized s = record {
  report_wait_millis = clamp 1 report_wait_millis_ceiling s.report_wait_millis;
  cell_width = clamp 1 cell_width_ceiling s.cell_width;
  digest_group_limit = clamp 1 group_limit s.digest_group_limit;
  digest_top_n = clamp 1 top_n_limit s.digest_top_n;
  digest_sample_rows = clamp 1 sample_rows_limit s.digest_sample_rows;
  digest_row_limit = clamp 1 rows_format_limit s.digest_row_limit;
  response_limit_bytes = clamp 1024 max_response_bytes_ceiling s.response_limit_bytes;
  max_cursor_rows = clamp 100 max_cursor_rows_ceiling s.max_cursor_rows;
  cursor_ttl_secs = clamp 10 cursor_ttl_secs_ceiling s.cursor_ttl_secs;
  max_cursor_sessions = clamp 1 max_cursor_sessions_ceiling s.max_cursor_sessions;
  confirm_ttl_secs = clamp 10 confirm_ttl_secs_ceiling s.confirm_ttl_secs;
}

-- The refusals of `mcp/settings/set`.
pub data SettingsError : Type 0 where
  not_an_integer : Text → SettingsError
  out_of_range : Text → ℕ → SettingsError
  save_failed : Text → SettingsError

module _ (json : Json) where
  open json use {Value, lookup, is_null, as_u64, object, number}

  -- `value.get(key).and_then(Value::as_u64).unwrap_or(fallback)`.
  unfoldable pub read_u64 : Value → Text → ℕ → ℕ
  read_u64 value key fallback = elim (lookup key value) [
    | none ↦ fallback
    | some field ↦ (elim (as_u64 field) [ none ↦ fallback | some n ↦ n ])
  ]

  unfoldable pub from_json : Value → McpSettings
  from_json value =
      let d = default_settings in
      let u = read_u64 value in
      sanitized (record {
        report_wait_millis = u (codes "reportWaitMs") d.report_wait_millis;
        cell_width = u (codes "cellWidth") d.cell_width;
        digest_group_limit = u (codes "digestGroupLimit") d.digest_group_limit;
        digest_top_n = u (codes "digestTopN") d.digest_top_n;
        digest_sample_rows = u (codes "digestSampleRows") d.digest_sample_rows;
        digest_row_limit = u (codes "digestRowLimit") d.digest_row_limit;
        response_limit_bytes = u (codes "responseLimitBytes") d.response_limit_bytes;
        max_cursor_rows = u (codes "maxCursorRows") d.max_cursor_rows;
        cursor_ttl_secs = u (codes "cursorTtlSecs") d.cursor_ttl_secs;
        max_cursor_sessions = u (codes "maxCursorSessions") d.max_cursor_sessions;
        confirm_ttl_secs = u (codes "confirmTtlSecs") d.confirm_ttl_secs;
      })

  unfoldable pub limit_fields : McpSettings → List (Text × Value)
  limit_fields s =
      (codes "reportWaitMs", number s.report_wait_millis)
      ∷ (codes "cellWidth", number s.cell_width)
      ∷ (codes "digestGroupLimit", number s.digest_group_limit)
      ∷ (codes "digestTopN", number s.digest_top_n)
      ∷ (codes "digestSampleRows", number s.digest_sample_rows)
      ∷ (codes "digestRowLimit", number s.digest_row_limit)
      ∷ (codes "responseLimitBytes", number s.response_limit_bytes)
      ∷ (codes "maxCursorRows", number s.max_cursor_rows)
      ∷ (codes "cursorTtlSecs", number s.cursor_ttl_secs)
      ∷ (codes "maxCursorSessions", number s.max_cursor_sessions)
      ∷ (codes "confirmTtlSecs", number s.confirm_ttl_secs)
      ∷ []

  unfoldable pub to_json : McpSettings → Value
  unfolding limit_fields
  to_json s = object (limit_fields s)

  -- An absent or null field is none.
  unfoldable pub checked_u64 : Value → Text → ℕ → Result SettingsError (Option ℕ)
  checked_u64 updates key ceiling = elim (lookup key updates) [
    | none ↦ ok none
    | some field ↦ if is_null field then ok none else (elim (as_u64 field) [
      | none ↦ err (SettingsError.not_an_integer key)
      | some n ↦
          if ltb n 1 || ltb ceiling n
          then err (SettingsError.out_of_range key ceiling)
          else ok (some n)
    ])
  ]

  -- `if let Some(value) = checked_u64(updates, key, ceiling)? { limits.field = value; }`
  unfoldable pub set_field :
      Value
      → Text
      → ℕ
      → (ℕ → McpSettings → McpSettings)
      → McpSettings
      → Result SettingsError McpSettings
  set_field updates key ceiling write limits = checked_u64 updates key ceiling >>= λ n. (elim n [
    | none ↦ ok limits
    | some value ↦ ok (write value limits)
  ])

  -- All the fields of an update, in the order of the code.
  unfoldable pub set_fields : Value → McpSettings → Result SettingsError McpSettings
  set_fields updates limits =
      set_field updates (codes "reportWaitMs") report_wait_millis_ceiling
        (λ v l. record l { report_wait_millis = v }) limits
      >>= set_field updates (codes "cellWidth") cell_width_ceiling
          (λ v l. record l { cell_width = v })
      >>= set_field updates (codes "digestGroupLimit") group_limit
          (λ v l. record l { digest_group_limit = v })
      >>= set_field updates (codes "digestTopN") top_n_limit (λ v l. record l { digest_top_n = v })
      >>= set_field updates (codes "digestSampleRows") sample_rows_limit
          (λ v l. record l { digest_sample_rows = v })
      >>= set_field updates (codes "digestRowLimit") rows_format_limit
          (λ v l. record l { digest_row_limit = v })
      >>= set_field updates (codes "responseLimitBytes") max_response_bytes_ceiling
          (λ v l. record l { response_limit_bytes = v })
      >>= set_field updates (codes "maxCursorRows") max_cursor_rows_ceiling
          (λ v l. record l { max_cursor_rows = v })
      >>= set_field updates (codes "cursorTtlSecs") cursor_ttl_secs_ceiling
          (λ v l. record l { cursor_ttl_secs = v })
      >>= set_field updates (codes "maxCursorSessions") max_cursor_sessions_ceiling
          (λ v l. record l { max_cursor_sessions = v })
      >>= set_field updates (codes "confirmTtlSecs") confirm_ttl_secs_ceiling
          (λ v l. record l { confirm_ttl_secs = v })

  -- The answer, and the settings in force behind the call; `save` is the write of the file.
  unfoldable pub settings_set :
      (McpSettings → Option Text)
      → Value
      → McpSettings
      → Result SettingsError McpSettings × McpSettings
  settings_set save updates current = elim (set_fields updates current) [
    | err e ↦ (err e, current)
    | ok limits ↦
        let next = sanitized limits in
        (elim (save next) [
          | some reason ↦ (err (SettingsError.save_failed reason), current)
          | none ↦ (ok next, next)
        ])
  ]
