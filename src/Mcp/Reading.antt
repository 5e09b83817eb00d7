-- ===== src/Mcp/Reading.antt =====
-- Reading a cursor of backend/src/mcp/state.rs to its end hands out its rows.
use dbx_plugin_files.Prelude.{
  ℕ, zero, suc, ◌+◌, ◌*◌, ◌-◌, ◌≤◌, ◌<◌, ◌≡◌, refl, sym, subst, ap, ◌∙◌, inl, inr, true, false,
  List, [], ◌∷◌, ◌++◌, Option, none, some, arith, length, take, drop, ltb, leb, if◌then◌else◌,
  length-take, take-append-drop, Bool-cases, Result, ok, err, append-nil, leb→le,
}
use dbx_plugin_files.Prelude.Text.{Text}
use dbx_plugin_files.Prelude.Assoc.{text_key, find}
use dbx_plugin_files.Mcp.Lru.{LruTable, get, put, set_cap, retain}
use dbx_plugin_files.Mcp.Table.{find-get, find-put, capacity_set}
use dbx_plugin_files.Mcp.Settings.{McpSettings}
use dbx_plugin_files.Mcp.Cursors.{
  CursorSession, CursorPage, CursorError, cursor_put, page_start, page_end, page, advance,
  next_page,
}
use dbx_plugin_files.Mcp.Paging.{drop_nil, drop-drop, next_page_live}

-- A page in front of the rows behind it; none where the page is refused or they are.
unfoldable pub prepend_page :
    Result CursorError CursorPage → Option (List Text) → Option (List Text)
prepend_page (err fault) rest = none
prepend_page (ok got) none = if got.done then some got.page_rows else none
prepend_page (ok got) (some more) =
    if got.done then some got.page_rows else some (got.page_rows ++ more)

advance_live :
    (n now : ℕ) (session : CursorSession)
    → now < session.expires_at_millis
    → advance n none now session ≡ record session { offset = page_end n none session }
unfolding advance
advance_live n now session live =
    let fresh : leb session.expires_at_millis now ≡ false = ground arith in rw fresh refl

-- The pages of a cursor up to the one that says it is done; none when `fuel` calls do not suffice.
unfoldable pub read_pages :
    McpSettings → Text → ℕ → ℕ → ℕ → LruTable CursorSession → Option (List Text)
read_pages settings id n now zero cursors = none
read_pages settings id n now (suc fuel) cursors =
    let (answer, next) = next_page settings id n none now cursors in
    prepend_page answer (read_pages settings id n now fuel next)

read_step :
    (settings : McpSettings) (id : Text) (n now fuel : ℕ) (cursors next : LruTable CursorSession)
    (got : CursorPage)
    → next_page settings id n none now cursors ≡ (ok got, next)
    → read_pages settings id n now (suc fuel) cursors
      ≡ prepend_page (ok got) (read_pages settings id n now fuel next)
unfolding read_pages
read_step settings id n now fuel cursors next got h = rw h refl

drop_all : (n : ℕ) (rows : List Text) → length rows ≤ n → drop n rows ≡ []
drop_all n [] h = drop_nil n
drop_all zero (row ∷ rows) h = absurd (omega (arith, h))
drop_all (suc n) (row ∷ rows) h = drop_all n rows (omega (arith, h))

split_rows :
    (start end : ℕ) (rows : List Text)
    → start ≤ end
    → take (end - start) (drop start rows) ++ drop end rows ≡ drop start rows
split_rows start end rows h =
    let there : start + (end - start) ≡ end = omega (arith, h) in
    ap (λ rest. take (end - start) (drop start rows) ++ rest)
      (ap (λ k. drop k rows) (sym there) ∙ sym (drop-drop (end - start) start rows))
    ∙ take-append-drop (end - start) (drop start rows)

prepend_done :
    (got : CursorPage) (rest : Option (List Text))
    → got.done ≡ true
    → prepend_page (ok got) rest ≡ some got.page_rows
unfolding prepend_page
prepend_done got none h = rw h refl
prepend_done got (some more) h = rw h refl

prepend_more :
    (got : CursorPage) (rest : Option (List Text)) (more : List Text)
    → got.done ≡ false
    → rest ≡ some more
    → prepend_page (ok got) rest ≡ some (got.page_rows ++ more)
unfolding prepend_page
prepend_more got rest more h e = rw (e, h) refl

-- A page is followed by the rows behind it, or it is the last and there are none.
prepend_rest :
    (n : ℕ) (session : CursorSession) (rest : Option (List Text))
    → session.offset ≤ length session.rows
    → (page_end n none session < length session.rows
        → rest ≡ some (drop (page_end n none session) session.rows))
    → prepend_page (ok (page n none session)) rest ≡ some (drop session.offset session.rows)
unfolding page page_start page_end
prepend_rest n session rest within h =
    let end = page_end n none session in
    let here : page_start none session ≡ session.offset = omega (arith, within) in
    let covered : (page n none session).page_rows ++ drop end session.rows
        ≡ drop session.offset session.rows =
      split_rows (page_start none session) end session.rows (omega arith)
      ∙ ap (λ k. drop k session.rows) here in
    (elim (Bool-cases (leb (length session.rows) end)) [
      | inl last ↦
          prepend_done (page n none session) rest last
          ∙ ap some (
              sym (append-nil (page n none session).page_rows)
              ∙ ap (λ more. (page n none session).page_rows ++ more)
                  (sym (drop_all end session.rows (leb→le (length session.rows) end last)))
              ∙ covered)
      | inr open_end ↦
          prepend_more (page n none session) rest (drop end session.rows) open_end
            (h (ground arith))
          ∙ ap some covered
    ])

-- From any offset, pages of at least one row hand out the remaining rows in order.
pub read_pages_rest :
    (settings : McpSettings) (id : Text) (n now fuel : ℕ) (cursors : LruTable CursorSession)
    (session : CursorSession)
    → find id cursors.entries ≡ some session
    → now < session.expires_at_millis
    → 1 ≤ n
    → session.offset ≤ length session.rows
    → length session.rows - session.offset < fuel
    → read_pages settings id n now fuel cursors ≡ some (drop session.offset session.rows)
unfolding page_end page_start
read_pages_rest settings id n now zero cursors session found live pos within enough =
    absurd (omega (arith, enough))
read_pages_rest settings id n now (suc fuel) cursors session found live pos within enough =
    let next = (get id (advance n none now) cursors).1 in
    let moved : CursorSession = record session { offset = page_end n none session } in
    let served = next_page_live settings id n none now cursors session found live in
    let refound : find id next.entries ≡ some moved =
      find-get id (advance n none now) cursors session found
      ∙ ap some (advance_live n now session live) in
    read_step settings id n now fuel cursors next (page n none session) served
    ∙ prepend_rest n session (read_pages settings id n now fuel next) within (λ more.
      read_pages_rest settings id n now fuel next moved refound live pos (omega arith)
        (omega (arith, more, enough, pos)))

-- A cursor that was just put hands out exactly the rows it was given, cut to the configured number,
-- in pages of any size, while it has not expired.
pub read_pages-cursor_put :
    (settings : McpSettings) (id : Text) (n start now fuel : ℕ) (rows : List Text)
    (cursors : LruTable CursorSession)
    → 1 ≤ n
    → 1 ≤ settings.max_cursor_sessions
    → now < start + settings.cursor_ttl_secs * 1000
    → length rows < fuel
    → read_pages settings id n now fuel (cursor_put settings id start rows cursors).1
      ≡ some (take settings.max_cursor_rows rows)
unfolding cursor_put
read_pages-cursor_put settings id n start now fuel rows cursors pos sessions live enough =
    let fresh : CursorSession = record {
      rows = take settings.max_cursor_rows rows;
      offset = 0;
      expires_at_millis = start + settings.cursor_ttl_secs * 1000;
    } in
    let table =
      set_cap settings.max_cursor_sessions
        (retain (λ session. ltb start session.expires_at_millis) cursors) in
    read_pages_rest settings id n now fuel (put id fresh table) fresh
      (find-put id fresh table (
        subst (λ k. 1 ≤ k)
          (sym (
            capacity_set settings.max_cursor_sessions
              (retain (λ session. ltb start session.expires_at_millis) cursors)))
          sessions))
      live pos (omega arith) (omega (arith, enough, length-take settings.max_cursor_rows rows))
