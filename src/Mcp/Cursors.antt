-- ===== src/Mcp/Cursors.antt =====
-- The cursor sessions of backend/src/mcp/state.rs: rows materialized once and handed out in pages.
use dbx_plugin_files.Prelude.{
  ℕ, ◌+◌, ◌*◌, ◌-◌, min, Bool, List, Option, none, some, length, take, drop, ltb, leb,
  if◌then◌else◌, Result, ok, err, ◌>>=◌, ◌∷◌, [],
}
use dbx_plugin_files.Prelude.Text.{Text, codes}
use dbx_plugin_files.Mcp.Json.{Json}
use dbx_plugin_files.Mcp.Arguments.{
  ArgumentError, missing_required, required_str, numeric_arg_or, numeric_arg_u64,
}
use dbx_plugin_files.Mcp.Lru.{LruTable, get, put, set_cap, remove, retain}
use dbx_plugin_files.Mcp.Settings.{McpSettings, clamp}

abbrev pub cursor_page : ℕ
cursor_page = 20

abbrev pub max_cursor_page : ℕ
max_cursor_page = 20

pub record CursorSession : Type 0 where
  pub rows : List Text
  pub offset : ℕ
  pub expires_at_millis : ℕ

pub record CursorPage : Type 0 where
  pub page_rows : List Text
  pub start : ℕ
  pub next_offset : ℕ
  pub done : Bool

pub data CursorError : Type 0 where
  bad_argument : ArgumentError → CursorError
  unknown_cursor : Text → CursorError
  -- With the lifetime in seconds.
  cursor_expired : ℕ → CursorError

-- The new table, and whether rows were dropped; `cursor_id` is the fresh identifier.
unfoldable pub cursor_put :
    McpSettings → Text → ℕ → List Text → LruTable CursorSession → Bool × LruTable CursorSession
cursor_put settings cursor_id now rows cursors =
    let truncated = ltb settings.max_cursor_rows (length rows) in
    let live = retain (λ session. ltb now session.expires_at_millis) cursors in
    let sized = set_cap settings.max_cursor_sessions live in
    (
      truncated,
      put cursor_id
          (record {
            rows = take settings.max_cursor_rows rows;
            offset = 0;
            expires_at_millis = now + settings.cursor_ttl_secs * 1000;
          })
          sized,
    )

-- The first row of a page, and the row behind its last one.
unfoldable pub page_start : Option ℕ → CursorSession → ℕ
page_start none session = min session.offset (length session.rows)
page_start (some offset) session = min offset (length session.rows)

unfoldable pub page_end : ℕ → Option ℕ → CursorSession → ℕ
unfolding page_start
page_end n offset session = min (page_start offset session + n) (length session.rows)

unfoldable pub page : ℕ → Option ℕ → CursorSession → CursorPage
unfolding page_start page_end
page n offset session =
    let start = page_start offset session in
    let end = page_end n offset session in
    record {
      page_rows = take (end - start) (drop start session.rows);
      start = start;
      next_offset = end;
      done = leb (length session.rows) end;
    }

-- What a page leaves of its session: an expired one is not written.
unfoldable pub advance : ℕ → Option ℕ → ℕ → CursorSession → CursorSession
unfolding page_end
advance n offset now session =
    if leb session.expires_at_millis now
    then session
    else record session { offset = page_end n offset session }

-- The answer from what `get` found and from the table it left.
unfoldable pub paged :
    McpSettings
    → Text
    → ℕ
    → Option ℕ
    → ℕ
    → Option CursorSession × LruTable CursorSession
    → Result CursorError CursorPage × LruTable CursorSession
paged settings cursor_id n offset now (none, cursors) =
    (err (CursorError.unknown_cursor cursor_id), cursors)
paged settings cursor_id n offset now (some session, cursors) =
    if leb session.expires_at_millis now
    then (err (CursorError.cursor_expired settings.cursor_ttl_secs), (remove cursor_id cursors).1)
    else (ok (page n offset session), cursors)

-- The part of `cursor_next` that runs under the lock.
unfoldable pub next_page :
    McpSettings
    → Text
    → ℕ
    → Option ℕ
    → ℕ
    → LruTable CursorSession
    → Result CursorError CursorPage × LruTable CursorSession
next_page settings cursor_id n offset now cursors =
    paged settings cursor_id n offset now (get cursor_id (advance n offset now) cursors)

-- The arguments of a call: the cursor, the clamped page length and the explicit offset.
unfoldable pub cursor_arguments :
    (json : Json) → json.Value → Result ArgumentError (Text × (ℕ × Option ℕ))
cursor_arguments json arguments = missing_required json (codes "cursorId" ∷ []) arguments >>= λ _.
    required_str json (codes "cursorId") arguments >>= λ cursor_id.
    numeric_arg_or json (codes "n") cursor_page arguments >>= λ n.
    numeric_arg_u64 json (codes "offset") arguments >>= λ offset.
    ok (cursor_id, (clamp 1 max_cursor_page n, offset))

unfoldable pub cursor_next :
    (json : Json)
    → McpSettings
    → json.Value
    → ℕ
    → LruTable CursorSession
    → Result CursorError CursorPage × LruTable CursorSession
unfolding cursor_arguments next_page
cursor_next json settings arguments now cursors = elim (cursor_arguments json arguments) [
  | err fault ↦ (err (CursorError.bad_argument fault), cursors)
  | ok (cursor_id, (n, offset)) ↦ next_page settings cursor_id n offset now cursors
]
