-- ===== src/Mcp/Updates.antt =====
-- What `mcp/settings/set` of backend/src/mcp/state.rs does to every single limit.
use dbx_plugin_files.Prelude.{
  ℕ, ◌<◌, ◌≡◌, refl, ap, ◌∙◌, inl, inr, Option, arith, Option-cases, Result, ok, ◌>>=◌, bind-ok,
}
use dbx_plugin_files.Prelude.Text.{Text, codes}
use dbx_plugin_files.Mcp.Json.{Json}
use dbx_plugin_files.Mcp.Limits.{settings_set-cases}
use dbx_plugin_files.Mcp.Settings.{
  McpSettings, SettingsError, sanitized, read_u64, settings_set, set_fields, set_field, checked_u64,
  report_wait_millis_ceiling, cell_width_ceiling, group_limit, top_n_limit, sample_rows_limit,
  rows_format_limit, max_response_bytes_ceiling, max_cursor_rows_ceiling, cursor_ttl_secs_ceiling,
  max_cursor_sessions_ceiling, confirm_ttl_secs_ceiling,
}

module _ (json : Json) where
  open json use {Value, lookup, is_null, as_u64, as_u64-null}

  -- Every limit is the update's number where it has one, and stays otherwise.
  unfoldable pub requested : Value → McpSettings → McpSettings
  requested updates s = record {
    report_wait_millis = read_u64 json updates (codes "reportWaitMs") s.report_wait_millis;
    cell_width = read_u64 json updates (codes "cellWidth") s.cell_width;
    digest_group_limit = read_u64 json updates (codes "digestGroupLimit") s.digest_group_limit;
    digest_top_n = read_u64 json updates (codes "digestTopN") s.digest_top_n;
    digest_sample_rows = read_u64 json updates (codes "digestSampleRows") s.digest_sample_rows;
    digest_row_limit = read_u64 json updates (codes "digestRowLimit") s.digest_row_limit;
    response_limit_bytes =
        read_u64 json updates (codes "responseLimitBytes") s.response_limit_bytes;
    max_cursor_rows = read_u64 json updates (codes "maxCursorRows") s.max_cursor_rows;
    cursor_ttl_secs = read_u64 json updates (codes "cursorTtlSecs") s.cursor_ttl_secs;
    max_cursor_sessions = read_u64 json updates (codes "maxCursorSessions") s.max_cursor_sessions;
    confirm_ttl_secs = read_u64 json updates (codes "confirmTtlSecs") s.confirm_ttl_secs;
  }

  set_field_ok :
      (updates : Value) (key : Text) (ceiling : ℕ) (write : ℕ → McpSettings → McpSettings)
      (read : McpSettings → ℕ) (l next : McpSettings)
      → write (read l) l ≡ l
      → set_field json updates key ceiling write l ≡ ok next
      → next ≡ write (read_u64 json updates key (read l)) l
  unfolding set_field checked_u64 read_u64
  set_field_ok updates key ceiling write read l next same h =
      elim (Option-cases (lookup key updates)) [
        | inl missing ↦ ground arith
        | inr (field, found) ↦ ground (arith, as_u64-null field)
      ]

  then_field :
      (updates : Value) (key : Text) (ceiling : ℕ) (write : ℕ → McpSettings → McpSettings)
      (read : McpSettings → ℕ)
      → ((l : McpSettings) → write (read l) l ≡ l)
      → (before : Result SettingsError McpSettings) (next : McpSettings)
      → (before >>= set_field json updates key ceiling write) ≡ ok next
      → (l : McpSettings) × ((before ≡ ok l)
          × (next ≡ write (read_u64 json updates key (read l)) l))
  then_field updates key ceiling write read same before next h =
      let (l, (first, last)) = bind-ok before (set_field json updates key ceiling write) next h in
      (l, (first, set_field_ok updates key ceiling write read l next (same l) last))

  -- An update that is accepted sets the limits it has and no others.
  pub set_fields-requested :
      (updates : Value) (current limits : McpSettings)
      → set_fields json updates current ≡ ok limits
      → limits ≡ requested updates current
  unfolding set_fields requested
  set_fields-requested updates current limits h =
      let (l10, (h10, e10)) =
        then_field updates (codes "confirmTtlSecs") confirm_ttl_secs_ceiling
          (λ v l. record l { confirm_ttl_secs = v }) (λ l. l.confirm_ttl_secs) (λ l. refl) _ limits
          h in
      let (l9, (h9, e9)) =
        then_field updates (codes "maxCursorSessions") max_cursor_sessions_ceiling
          (λ v l. record l { max_cursor_sessions = v }) (λ l. l.max_cursor_sessions) (λ l. refl) _
          l10 h10 in
      let (l8, (h8, e8)) =
        then_field updates (codes "cursorTtlSecs") cursor_ttl_secs_ceiling
          (λ v l. record l { cursor_ttl_secs = v }) (λ l. l.cursor_ttl_secs) (λ l. refl) _ l9 h9 in
      let (l7, (h7, e7)) =
        then_field updates (codes "maxCursorRows") max_cursor_rows_ceiling
          (λ v l. record l { max_cursor_rows = v }) (λ l. l.max_cursor_rows) (λ l. refl) _ l8 h8 in
      let (l6, (h6, e6)) =
        then_field updates (codes "responseLimitBytes") max_response_bytes_ceiling
          (λ v l. record l { response_limit_bytes = v }) (λ l. l.response_limit_bytes) (λ l. refl) _
          l7 h7 in
      let (l5, (h5, e5)) =
        then_field updates (codes "digestRowLimit") rows_format_limit
          (λ v l. record l { digest_row_limit = v }) (λ l. l.digest_row_limit) (λ l. refl) _ l6
          h6 in
      let (l4, (h4, e4)) =
        then_field updates (codes "digestSampleRows") sample_rows_limit
          (λ v l. record l { digest_sample_rows = v }) (λ l. l.digest_sample_rows) (λ l. refl) _ l5
          h5 in
      let (l3, (h3, e3)) =
        then_field updates (codes "digestTopN") top_n_limit (λ v l. record l { digest_top_n = v })
          (λ l. l.digest_top_n) (λ l. refl) _ l4 h4 in
      let (l2, (h2, e2)) =
        then_field updates (codes "digestGroupLimit") group_limit
          (λ v l. record l { digest_group_limit = v }) (λ l. l.digest_group_limit) (λ l. refl) _ l3
          h3 in
      let (l1, (h1, e1)) =
        then_field updates (codes "cellWidth") cell_width_ceiling
          (λ v l. record l { cell_width = v }) (λ l. l.cell_width) (λ l. refl) _ l2 h2 in
      let e0 =
        set_field_ok updates (codes "reportWaitMs") report_wait_millis_ceiling
          (λ v l. record l { report_wait_millis = v }) (λ l. l.report_wait_millis) current l1 refl
          h1 in
      rw (e10, e9, e8, e7, e6, e5, e4, e3, e2, e1, e0) refl

  -- An accepted update puts in force, and answers, the limits in force with exactly the requested
  -- ones replaced, each clamped to its bounds.
  pub settings_set_applies :
      (save : McpSettings → Option Text) (updates : Value) (current next : McpSettings)
      → (settings_set json save updates current).0 ≡ ok next
      → settings_set json save updates current
        ≡ (ok (sanitized (requested updates current)), sanitized (requested updates current))
  settings_set_applies save updates current next h =
      elim (settings_set-cases json save updates current) [
        | inl (fault, e) ↦ absurd (cc)
        | inr (limits, (accepted, e)) ↦
            let same = set_fields-requested updates current limits accepted in
            e ∙ ap (λ l. (ok (sanitized l), sanitized l)) same
      ]

  -- An accepted response limit below 1024 bytes is not set: the limit in force becomes 1024.
  pub settings_set_raises :
      (save : McpSettings → Option Text) (updates : Value) (current next : McpSettings)
      → (settings_set json save updates current).0 ≡ ok next
      → read_u64 json updates (codes "responseLimitBytes") current.response_limit_bytes < 1024
      → (settings_set json save updates current).1.response_limit_bytes ≡ 1024
  unfolding sanitized requested
  settings_set_raises save updates current next h low =
      rw (settings_set_applies save updates current next h) (omega (arith, low))
