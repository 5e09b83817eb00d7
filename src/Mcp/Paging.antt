-- ===== src/Mcp/Paging.antt =====
-- The pages of a cursor in backend/src/mcp/state.rs: their bounds, and that they cover the rows.
use dbx_plugin_files.Prelude.{
  ℕ, zero, suc, ◌+◌, ◌-◌, ◌≤◌, ◌<◌, ◌≡◌, refl, sym, ap, ◌∙◌, inl, inr, true, false, List, [], ◌∷◌,
  Option, none, some, arith, length, drop, ltb, leb, length-take, length-drop, Bool-cases,
  Option-cases, ok, err, Result-cases,
}
use dbx_plugin_files.Prelude.Text.{Text}
use dbx_plugin_files.Prelude.Assoc.{text_key, find, find-without_self}
use dbx_plugin_files.Mcp.Json.{Json}
use dbx_plugin_files.Mcp.Arguments.{ArgumentError}
use dbx_plugin_files.Mcp.Lru.{LruTable, get, set_cap, remove, retain}
use dbx_plugin_files.Mcp.Table.{
  IsBounded, put-IsBounded, set_cap-IsBounded, remove-IsBounded, retain-IsBounded, get-IsBounded,
  get-none, get-some, capacity_put,
}
use dbx_plugin_files.Mcp.Settings.{McpSettings}
use dbx_plugin_files.Mcp.Cursors.{
  CursorSession, CursorPage, CursorError, cursor_put, page_start, page_end, page, advance, paged,
  next_page, cursor_arguments, cursor_next,
}

pub drop_nil : (n : ℕ) → drop {A = Text} n [] ≡ []
drop_nil zero = refl
drop_nil (suc n) = refl

pub drop-drop : (n m : ℕ) (rows : List Text) → drop n (drop m rows) ≡ drop (m + n) rows
drop-drop n zero rows = ap (λ k. drop k rows) (omega arith)
drop-drop n (suc m) [] = drop_nil n ∙ sym (drop_nil (suc m + n))
drop-drop n (suc m) (row ∷ rows) =
    let same : suc m + n ≡ suc (m + n) = omega arith in
    drop-drop n m rows ∙ ap (λ k. drop k (row ∷ rows)) (sym same)

pub page_start-le :
    (offset : Option ℕ) (session : CursorSession) → page_start offset session ≤ length session.rows
unfolding page_start
page_start-le none session = omega arith
page_start-le (some offset) session = omega arith

-- The page's rows are what stands between its bounds.
pub page_rows-length :
    (n : ℕ) (offset : Option ℕ) (session : CursorSession)
    → length (page n offset session).page_rows
      ≡ (page n offset session).next_offset - (page n offset session).start
unfolding page page_end
page_rows-length n offset session =
    let start = page_start offset session in
    rw
      (
        length-take (page_end n offset session - start) (drop start session.rows),
        length-drop start session.rows,
      )
      (omega (arith, page_start-le offset session))

-- An unknown cursor, an expired one and a live one.
pub next_page_unknown :
    (settings : McpSettings) (id : Text) (n : ℕ) (offset : Option ℕ) (now : ℕ)
    (cursors : LruTable CursorSession)
    → find id cursors.entries ≡ none
    → next_page settings id n offset now cursors ≡ (err (CursorError.unknown_cursor id), cursors)
unfolding next_page paged
next_page_unknown settings id n offset now cursors h =
    rw (next_page, get-none id (advance n offset now) cursors h, paged) refl

pub next_page_expired :
    (settings : McpSettings) (id : Text) (n : ℕ) (offset : Option ℕ) (now : ℕ)
    (cursors : LruTable CursorSession) (session : CursorSession)
    → find id cursors.entries ≡ some session
    → session.expires_at_millis ≤ now
    → next_page settings id n offset now cursors ≡ (
      err (CursorError.cursor_expired settings.cursor_ttl_secs),
      (remove id ((get id (advance n offset now) cursors).1)).1,
    )
unfolding next_page paged
next_page_expired settings id n offset now cursors session h late =
    let over : leb session.expires_at_millis now ≡ true = ground arith in
    let e = get-some id (advance n offset now) cursors session h in
    rw (next_page, e, paged, over) refl

pub next_page_live :
    (settings : McpSettings) (id : Text) (n : ℕ) (offset : Option ℕ) (now : ℕ)
    (cursors : LruTable CursorSession) (session : CursorSession)
    → find id cursors.entries ≡ some session
    → now < session.expires_at_millis
    → next_page settings id n offset now cursors
      ≡ (ok (page n offset session), (get id (advance n offset now) cursors).1)
unfolding next_page paged
next_page_live settings id n offset now cursors session h live =
    let fresh : leb session.expires_at_millis now ≡ false = ground arith in
    let e = get-some id (advance n offset now) cursors session h in
    rw (next_page, e, paged, fresh) refl

-- No page breaks the table, whether it is served, refused or expired.
pub next_page-IsBounded :
    (settings : McpSettings) (id : Text) (n : ℕ) (offset : Option ℕ) (now : ℕ)
    (cursors : LruTable CursorSession)
    → IsBounded cursors
    → IsBounded (next_page settings id n offset now cursors).1
next_page-IsBounded settings id n offset now cursors h =
    elim (Option-cases (find id cursors.entries)) [
      | inl missing ↦ rw (next_page_unknown settings id n offset now cursors missing) h
      | inr (session, found) ↦
          let touched = get-IsBounded id (advance n offset now) cursors h in
          (elim (Bool-cases (leb session.expires_at_millis now)) [
            | inl late ↦
                rw (next_page_expired settings id n offset now cursors session found (ground arith))
                  (remove-IsBounded id ((get id (advance n offset now) cursors).1) touched)
            | inr live ↦
                rw (next_page_live settings id n offset now cursors session found (ground arith))
                  touched
          ])
    ]

-- A new cursor leaves the table within the configured number of sessions.
pub cursor_put-IsBounded :
    (settings : McpSettings) (id : Text) (now : ℕ) (rows : List Text)
    (cursors : LruTable CursorSession)
    → IsBounded cursors
    → IsBounded (cursor_put settings id now rows cursors).1
      × ((cursor_put settings id now rows cursors).1.capacity ≡ settings.max_cursor_sessions)
unfolding cursor_put
cursor_put-IsBounded settings id now rows cursors h =
    let live = retain (λ session. ltb now session.expires_at_millis) cursors in
    (
      put-IsBounded id _ (set_cap settings.max_cursor_sessions live) (
          set_cap-IsBounded settings.max_cursor_sessions live
            (retain-IsBounded (λ session. ltb now session.expires_at_millis) cursors h)),
      capacity_put id _ settings.max_cursor_sessions live,
    )

-- An expired cursor is reported once as expired, and is unknown from then on.
pub next_page_forgets :
    (settings : McpSettings) (id : Text) (n : ℕ) (offset : Option ℕ) (now : ℕ)
    (cursors : LruTable CursorSession) (session : CursorSession)
    → find id cursors.entries ≡ some session
    → session.expires_at_millis ≤ now
    → ((next_page settings id n offset now cursors).0
        ≡ err (CursorError.cursor_expired settings.cursor_ttl_secs))
      × ((next_page settings id n offset now (next_page settings id n offset now cursors).1).0
          ≡ err (CursorError.unknown_cursor id))
unfolding remove
next_page_forgets settings id n offset now cursors session found late =
    let e = next_page_expired settings id n offset now cursors session found late in
    let gone = find-without_self id ((get id (advance n offset now) cursors).1).entries in
    (ap (λ r. r.0) e, rw e (ap (λ r. r.0) (next_page_unknown settings id n offset now _ gone)))

-- The page length of a call is between 1 and 20, whatever the call asks for.
pub cursor_arguments-le :
    (json : Json) (arguments : json.Value) (id : Text) (n : ℕ) (offset : Option ℕ)
    → cursor_arguments json arguments ≡ ok (id, (n, offset))
    → (1 ≤ n) × (n ≤ 20)
unfolding cursor_arguments
cursor_arguments-le json arguments id n offset h = ground arith

-- A served page is a page of the session that was found.
next_page_served :
    (settings : McpSettings) (id : Text) (n : ℕ) (offset : Option ℕ) (now : ℕ)
    (cursors : LruTable CursorSession) (got : CursorPage)
    → (next_page settings id n offset now cursors).0 ≡ ok got
    → (session : CursorSession) × ((find id cursors.entries ≡ some session)
        × (got ≡ page n offset session))
next_page_served settings id n offset now cursors got h =
    elim (Option-cases (find id cursors.entries)) [
      | inl missing ↦
          let e = next_page_unknown settings id n offset now cursors missing in absurd (cc)
      | inr (session, found) ↦ (elim (Bool-cases (leb session.expires_at_millis now)) [
        | inl late ↦
            let e =
              next_page_expired settings id n offset now cursors session found (ground arith) in
            absurd (cc)
        | inr live ↦
            let e = next_page_live settings id n offset now cursors session found (ground arith) in
            (session, (found, cc))
      ])
    ]

page_bounds :
    (n : ℕ) (offset : Option ℕ) (session : CursorSession)
    → (length (page n offset session).page_rows ≤ n)
      × ((page n offset session).start + length (page n offset session).page_rows
          ≡ (page n offset session).next_offset)
unfolding page page_end
page_bounds n offset session = (
  omega (arith, page_rows-length n offset session),
  omega (arith, page_rows-length n offset session, page_start-le offset session),
)

cursor_next_refused :
    (json : Json) (settings : McpSettings) (arguments : json.Value) (now : ℕ)
    (cursors : LruTable CursorSession) (fault : ArgumentError)
    → cursor_arguments json arguments ≡ err fault
    → cursor_next json settings arguments now cursors
      ≡ (err (CursorError.bad_argument fault), cursors)
unfolding cursor_next
cursor_next_refused json settings arguments now cursors fault h = rw (cursor_next, h) refl

cursor_next_accepted :
    (json : Json) (settings : McpSettings) (arguments : json.Value) (now : ℕ)
    (cursors : LruTable CursorSession) (id : Text) (n : ℕ) (offset : Option ℕ)
    → cursor_arguments json arguments ≡ ok (id, (n, offset))
    → cursor_next json settings arguments now cursors ≡ next_page settings id n offset now cursors
unfolding cursor_next
cursor_next_accepted json settings arguments now cursors id n offset h = rw (cursor_next, h) refl

-- An answered page has at most 20 rows, and its next offset is its start and its rows.
pub cursor_next_bounds :
    (json : Json) (settings : McpSettings) (arguments : json.Value) (now : ℕ)
    (cursors : LruTable CursorSession) (got : CursorPage)
    → (cursor_next json settings arguments now cursors).0 ≡ ok got
    → (length got.page_rows ≤ 20) × (got.start + length got.page_rows ≡ got.next_offset)
cursor_next_bounds json settings arguments now cursors got h =
    elim (Result-cases (cursor_arguments json arguments)) [
      | inl (fault, refused) ↦
          let e = cursor_next_refused json settings arguments now cursors fault refused in
          absurd (cc)
      | inr ((id, (n, offset)), accepted) ↦
          let e = cursor_next_accepted json settings arguments now cursors id n offset accepted in
          let (session, (found, same)) =
            next_page_served settings id n offset now cursors got (cc) in
          let short = cursor_arguments-le json arguments id n offset accepted in
          let bounds = page_bounds n offset session in
          rw same (omega (arith, bounds.0, short.1), bounds.1)
    ]
