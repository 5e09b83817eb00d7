-- ===== src/Mcp/Limits.antt =====
-- The limits of backend/src/mcp/state.rs stay within their bounds, whatever is loaded or set.
use dbx_plugin_files.Prelude.{
  ℕ, ◌^◌, ◌≤◌, ◌<◌, ◌≡◌, refl, inl, inr, List, Option, none, some, arith, Option-cases, ok, err,
  Result-cases, ◌⊎◌,
}
use dbx_plugin_files.Prelude.Text.{Text, codes, text_eq}
use dbx_plugin_files.Prelude.Assoc.{text_key, find}
use dbx_plugin_files.Mcp.Json.{Json}
use dbx_plugin_files.Mcp.Settings.{
  McpSettings, SettingsError, sanitized, clamp, from_json, to_json, limit_fields, read_u64,
  settings_set, set_fields, default_settings, report_wait_millis_ceiling, cell_width_ceiling,
  group_limit, top_n_limit, sample_rows_limit, rows_format_limit, max_response_bytes_ceiling,
  max_cursor_rows_ceiling, cursor_ttl_secs_ceiling, max_cursor_sessions_ceiling,
  confirm_ttl_secs_ceiling,
}

abbrev pub Between : ℕ → ℕ → ℕ → Type 0
Between low high n = (low ≤ n) × (n ≤ high)

-- Every limit stands between its floor and its ceiling.
pub record InRange (s : McpSettings) : Type 0 where
  pub wait : Between 1 report_wait_millis_ceiling s.report_wait_millis
  pub width : Between 1 cell_width_ceiling s.cell_width
  pub groups : Between 1 group_limit s.digest_group_limit
  pub top : Between 1 top_n_limit s.digest_top_n
  pub samples : Between 1 sample_rows_limit s.digest_sample_rows
  pub rows : Between 1 rows_format_limit s.digest_row_limit
  pub bytes : Between 1024 max_response_bytes_ceiling s.response_limit_bytes
  pub cursor_rows : Between 100 max_cursor_rows_ceiling s.max_cursor_rows
  pub cursor_ttl : Between 10 cursor_ttl_secs_ceiling s.cursor_ttl_secs
  pub sessions : Between 1 max_cursor_sessions_ceiling s.max_cursor_sessions
  pub confirm_ttl : Between 10 confirm_ttl_secs_ceiling s.confirm_ttl_secs

clamp-Between : (low high n : ℕ) → low ≤ high → Between low high (clamp low high n)
clamp-Between low high n h = (omega arith, omega arith)

clamp_id : (low high n : ℕ) → Between low high n → clamp low high n ≡ n
clamp_id low high n h = omega (arith, h.0, h.1)

pub sanitized-InRange : (s : McpSettings) → InRange (sanitized s)
unfolding sanitized
sanitized-InRange s = record {
  wait = clamp-Between 1 report_wait_millis_ceiling s.report_wait_millis (omega arith);
  width = clamp-Between 1 cell_width_ceiling s.cell_width (omega arith);
  groups = clamp-Between 1 group_limit s.digest_group_limit (omega arith);
  top = clamp-Between 1 top_n_limit s.digest_top_n (omega arith);
  samples = clamp-Between 1 sample_rows_limit s.digest_sample_rows (omega arith);
  rows = clamp-Between 1 rows_format_limit s.digest_row_limit (omega arith);
  bytes = clamp-Between 1024 max_response_bytes_ceiling s.response_limit_bytes (omega arith);
  cursor_rows = clamp-Between 100 max_cursor_rows_ceiling s.max_cursor_rows (omega arith);
  cursor_ttl = clamp-Between 10 cursor_ttl_secs_ceiling s.cursor_ttl_secs (omega arith);
  sessions = clamp-Between 1 max_cursor_sessions_ceiling s.max_cursor_sessions (omega arith);
  confirm_ttl = clamp-Between 10 confirm_ttl_secs_ceiling s.confirm_ttl_secs (omega arith);
}

-- Limits within their bounds are not changed.
pub sanitized_id : (s : McpSettings) → InRange s → sanitized s ≡ s
unfolding sanitized
sanitized_id s h =
    rw
      (
        clamp_id 1 report_wait_millis_ceiling s.report_wait_millis h.wait,
        clamp_id 1 cell_width_ceiling s.cell_width h.width,
        clamp_id 1 group_limit s.digest_group_limit h.groups,
        clamp_id 1 top_n_limit s.digest_top_n h.top,
        clamp_id 1 sample_rows_limit s.digest_sample_rows h.samples,
        clamp_id 1 rows_format_limit s.digest_row_limit h.rows,
        clamp_id 1024 max_response_bytes_ceiling s.response_limit_bytes h.bytes,
        clamp_id 100 max_cursor_rows_ceiling s.max_cursor_rows h.cursor_rows,
        clamp_id 10 cursor_ttl_secs_ceiling s.cursor_ttl_secs h.cursor_ttl,
        clamp_id 1 max_cursor_sessions_ceiling s.max_cursor_sessions h.sessions,
        clamp_id 10 confirm_ttl_secs_ceiling s.confirm_ttl_secs h.confirm_ttl,
      )
      refl

module _ (json : Json) where
  open json use {Value, lookup, is_null, as_u64, object, number, lookup-object, as_u64-number}

  -- Whatever the file holds, the loaded limits stand within their bounds.
  pub from_json-InRange : (value : Value) → InRange (from_json json value)
  unfolding from_json
  from_json-InRange value = sanitized-InRange _

  read_number :
      (fields : List (Text × Value)) (key : Text) (n low high fallback : ℕ)
      → find key fields ≡ some (number n)
      → Between low high n
      → high < 2 ^ 64
      → read_u64 json (object fields) key fallback ≡ n
  unfolding read_u64
  read_number fields key n low high fallback h b w =
      rw (read_u64, lookup-object key fields, h, as_u64-number n (omega (arith, b.1, w))) refl

  -- Limits that are saved and loaded again come back unchanged.
  pub from_json-to_json : (s : McpSettings) → InRange s → from_json json (to_json json s) ≡ s
  unfolding from_json to_json limit_fields find text_eq
  from_json-to_json s h =
      rw
        (
          read_number (limit_fields json s) (codes "reportWaitMs") s.report_wait_millis 1
              report_wait_millis_ceiling default_settings.report_wait_millis refl h.wait
              (omega arith),
          read_number (limit_fields json s) (codes "cellWidth") s.cell_width 1 cell_width_ceiling
              default_settings.cell_width refl h.width (omega arith),
          read_number (limit_fields json s) (codes "digestGroupLimit") s.digest_group_limit 1
              group_limit default_settings.digest_group_limit refl h.groups (omega arith),
          read_number (limit_fields json s) (codes "digestTopN") s.digest_top_n 1 top_n_limit
              default_settings.digest_top_n refl h.top (omega arith),
          read_number (limit_fields json s) (codes "digestSampleRows") s.digest_sample_rows 1
              sample_rows_limit default_settings.digest_sample_rows refl h.samples (omega arith),
          read_number (limit_fields json s) (codes "digestRowLimit") s.digest_row_limit 1
              rows_format_limit default_settings.digest_row_limit refl h.rows (omega arith),
          read_number (limit_fields json s) (codes "responseLimitBytes") s.response_limit_bytes 1024
              max_response_bytes_ceiling default_settings.response_limit_bytes refl h.bytes
              (omega arith),
          read_number (limit_fields json s) (codes "maxCursorRows") s.max_cursor_rows 100
              max_cursor_rows_ceiling default_settings.max_cursor_rows refl h.cursor_rows
              (omega arith),
          read_number (limit_fields json s) (codes "cursorTtlSecs") s.cursor_ttl_secs 10
              cursor_ttl_secs_ceiling default_settings.cursor_ttl_secs refl h.cursor_ttl
              (omega arith),
          read_number (limit_fields json s) (codes "maxCursorSessions") s.max_cursor_sessions 1
              max_cursor_sessions_ceiling default_settings.max_cursor_sessions refl h.sessions
              (omega arith),
          read_number (limit_fields json s) (codes "confirmTtlSecs") s.confirm_ttl_secs 10
              confirm_ttl_secs_ceiling default_settings.confirm_ttl_secs refl h.confirm_ttl
              (omega arith),
        )
        (sanitized_id s h)

  set_refused :
      (save : McpSettings → Option Text) (updates : Value) (current : McpSettings)
      (fault : SettingsError)
      → set_fields json updates current ≡ err fault
      → settings_set json save updates current ≡ (err fault, current)
  unfolding settings_set
  set_refused save updates current fault h = rw (settings_set, h) refl

  set_unsaved :
      (save : McpSettings → Option Text) (updates : Value) (current limits : McpSettings)
      (reason : Text)
      → set_fields json updates current ≡ ok limits
      → save (sanitized limits) ≡ some reason
      → settings_set json save updates current ≡ (err (SettingsError.save_failed reason), current)
  unfolding settings_set
  set_unsaved save updates current limits reason h u = rw (settings_set, h, u) refl

  set_saved :
      (save : McpSettings → Option Text) (updates : Value) (current limits : McpSettings)
      → set_fields json updates current ≡ ok limits
      → save (sanitized limits) ≡ none
      → settings_set json save updates current ≡ (ok (sanitized limits), sanitized limits)
  unfolding settings_set
  set_saved save updates current limits h u = rw (settings_set, h, u) refl

  -- A call of settings_set either fails and leaves the limits in force as they were, or it answers
  -- the clamped limits of the whole update, saves them and puts them in force.
  pub settings_set-cases :
      (save : McpSettings → Option Text) (updates : Value) (current : McpSettings)
      → ((fault : SettingsError) × (settings_set json save updates current ≡ (err fault, current)))
        ⊎ ((limits : McpSettings) × ((set_fields json updates current ≡ ok limits)
              × (settings_set json save updates current
                  ≡ (ok (sanitized limits), sanitized limits))))
  settings_set-cases save updates current = elim (Result-cases (set_fields json updates current)) [
    | inl (fault, refused) ↦ inl (fault, set_refused save updates current fault refused)
    | inr (limits, accepted) ↦ (elim (Option-cases (save (sanitized limits))) [
      | inl saved ↦ inr (limits, (accepted, set_saved save updates current limits accepted saved))
      | inr (reason, unsaved) ↦ inl (
        SettingsError.save_failed reason,
        set_unsaved save updates current limits reason accepted unsaved,
      )
    ])
  ]

  -- The limits in force stand within their bounds behind every call of settings_set.
  pub settings_set-InRange :
      (save : McpSettings → Option Text) (updates : Value) (current : McpSettings)
      → InRange current
      → InRange (settings_set json save updates current).1
  settings_set-InRange save updates current h = elim (settings_set-cases save updates current) [
    | inl (fault, e) ↦ rw e h
    | inr (limits, (accepted, e)) ↦ rw e (sanitized-InRange limits)
  ]
