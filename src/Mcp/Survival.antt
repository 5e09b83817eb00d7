-- ===== src/Mcp/Survival.antt =====
-- Which confirm tokens of backend/src/mcp/state.rs outlive another token's preview.
use dbx_plugin_files.Prelude.{
  ℕ, ◌≤◌, ◌<◌, ◌≡◌, ◌≢◌, sym, subst, inl, inr, Bool, true, List, [], ◌∷◌, some, arith, length, ltb,
  leb, Bool-cases, Option-cases,
}
use dbx_plugin_files.Prelude.Text.{Text, text_eq_refl, text_eq_iff, text_eq_of_ne}
use dbx_plugin_files.Prelude.Assoc.{
  text_key, find, without, Distinct, find-without, find-append, find-without_self,
}
use dbx_plugin_files.Mcp.Lru.{keep}
use dbx_plugin_files.Mcp.Table.{keep-Distinct}
use dbx_plugin_files.Mcp.Settings.{McpSettings}
use dbx_plugin_files.Mcp.Confirms.{
  ConfirmEntry, earliest, make_room, confirm_begin, max_confirm_entries,
}
use dbx_plugin_files.Mcp.Tokens.{earliest_none}

earliest-find :
    (confirms : List (Text × ConfirmEntry)) (oldest : Text × ConfirmEntry)
    → Distinct confirms
    → earliest confirms ≡ some oldest
    → find oldest.0 confirms ≡ some oldest.1
unfolding earliest find
earliest-find [] oldest d h = absurd (cc)
earliest-find ((token, entry) ∷ confirms) oldest d h =
    ground
      (arith, earliest-find confirms oldest d.1, text_eq_refl token, text_eq_iff token oldest.0)

earliest-le :
    (confirms : List (Text × ConfirmEntry)) (oldest : Text × ConfirmEntry) (token : Text)
    (entry : ConfirmEntry)
    → earliest confirms ≡ some oldest
    → find token confirms ≡ some entry
    → oldest.1.expires_at_millis ≤ entry.expires_at_millis
unfolding earliest find
earliest-le [] oldest token entry h f = absurd (cc)
earliest-le ((other, first) ∷ confirms) oldest token entry h f =
    elim (Option-cases (earliest confirms)) [
      | inl nothing ↦ ground (arith, earliest_none token confirms nothing)
      | inr (rest, e) ↦ ground (arith, earliest-le confirms rest token entry e)
    ]

-- Two entries that expire apart have different keys.
keys_apart :
    (one two : Text) (first second : ConfirmEntry) (confirms : List (Text × ConfirmEntry))
    → find one confirms ≡ some first
    → find two confirms ≡ some second
    → first.expires_at_millis < second.expires_at_millis
    → one ≢ two
keys_apart one two first second confirms h s lt same =
    let both : first ≡ second = cc in
    let never : first.expires_at_millis < first.expires_at_millis =
      subst (λ e. first.expires_at_millis < e.expires_at_millis) (sym both) lt in
    absurd (omega (arith, never))

keep-find :
    (test : ConfirmEntry → Bool) (token : Text) (entry : ConfirmEntry)
    (confirms : List (Text × ConfirmEntry))
    → find token confirms ≡ some entry
    → test entry ≡ true
    → find token (keep test confirms) ≡ some entry
unfolding keep find
keep-find test token entry [] h t = absurd (cc)
keep-find test token entry ((other, first) ∷ confirms) h t =
    ground (arith, keep-find test token entry confirms)

-- Making room never takes a token while another one expires earlier.
make_room-find :
    (token sooner : Text) (entry other : ConfirmEntry) (confirms : List (Text × ConfirmEntry))
    → Distinct confirms
    → find token confirms ≡ some entry
    → find sooner confirms ≡ some other
    → other.expires_at_millis < entry.expires_at_millis
    → find token (make_room confirms) ≡ some entry
unfolding make_room
make_room-find token sooner entry other confirms d h s lt =
    elim (Bool-cases (leb max_confirm_entries (length confirms))) [
      | inr space ↦ rw space h
      | inl full ↦ rw full (elim (Option-cases (earliest confirms)) [
        | inl nothing ↦ rw nothing h
        | inr (oldest, e) ↦
            let first = earliest-le confirms oldest sooner other e s in
            let apart =
              keys_apart oldest.0 token oldest.1 entry confirms (earliest-find confirms oldest d e)
                h (omega (arith, first, lt)) in
            rw (e, find-without token oldest.0 confirms, text_eq_of_ne oldest.0 token apart) h
      ])
    ]

-- A live token survives another token's preview while some other live token expires earlier.
pub confirm_begin_keeps :
    (settings : McpSettings) (fresh token sooner : Text) (hash now : ℕ) (entry other : ConfirmEntry)
    (confirms : List (Text × ConfirmEntry))
    → Distinct confirms
    → fresh ≢ token
    → find token confirms ≡ some entry
    → find sooner confirms ≡ some other
    → now < other.expires_at_millis
    → other.expires_at_millis < entry.expires_at_millis
    → find token (confirm_begin settings fresh hash now confirms).1 ≡ some entry
unfolding confirm_begin
confirm_begin_keeps settings fresh token sooner hash now entry other confirms d ne h s live lt =
    let test : ConfirmEntry → Bool = λ entry. ltb now entry.expires_at_millis in
    let roomy = make_room (keep test confirms) in
    let kept =
      make_room-find token sooner entry other (keep test confirms) (keep-Distinct test confirms d)
        (keep-find test token entry confirms h (ground arith))
        (keep-find test sooner other confirms s (ground arith)) lt in
    rw
      (
        find-append token fresh _ (without fresh roomy) (find-without_self fresh roomy),
        find-without token fresh roomy,
      )
      (rw (text_eq_of_ne fresh token ne) kept)
