-- ===== src/Mcp/Tokens.antt =====
-- The confirm tokens of backend/src/mcp/state.rs are used once, expire, and stay few.
use dbx_plugin_files.Prelude.{
  ℕ, ◌+◌, ◌*◌, ◌≤◌, ◌<◌, ◌≡◌, refl, inl, inr, List, [], ◌∷◌, none, some, arith, length, ltb, leb,
  ◌==◌, if◌then◌else◌, length-append, Bool-cases, Option-cases, ok, err,
}
use dbx_plugin_files.Prelude.Text.{Text, text_eq_refl}
use dbx_plugin_files.Prelude.Assoc.{
  text_key, find, without, Distinct, find-append, find-without_self, length-without,
  without-Distinct, append-Distinct,
}
use dbx_plugin_files.Mcp.Lru.{keep}
use dbx_plugin_files.Mcp.Table.{keep-Distinct, keep-length}
use dbx_plugin_files.Mcp.Settings.{McpSettings}
use dbx_plugin_files.Mcp.Confirms.{
  ConfirmEntry, ConfirmError, earliest, make_room, confirm_begin, verify_entry, confirm_verify,
  max_confirm_entries,
}

-- Whatever a verification answers, the token is unknown from then on.
pub confirm_verify_once :
    (settings : McpSettings) (token : Text) (hash now again later : ℕ)
    (confirms : List (Text × ConfirmEntry))
    → (confirm_verify settings token again later
        (confirm_verify settings token hash now confirms).1).0
      ≡ err ConfirmError.unknown_token
unfolding confirm_verify verify_entry
confirm_verify_once settings token hash now again later confirms =
    rw (find-without_self token confirms) refl

find_begun :
    (settings : McpSettings) (token : Text) (hash start : ℕ) (confirms : List (Text × ConfirmEntry))
    → find token (confirm_begin settings token hash start confirms).1
      ≡ some (record { hash = hash; expires_at_millis = start + settings.confirm_ttl_secs * 1000 })
unfolding confirm_begin
find_begun settings token hash start confirms =
    let roomy = make_room (keep (λ entry. ltb start entry.expires_at_millis) confirms) in
    let entry : ConfirmEntry = record {
      hash = hash;
      expires_at_millis = start + settings.confirm_ttl_secs * 1000;
    } in
    rw
      (
        find-append token token entry (without token roomy) (find-without_self token roomy),
        text_eq_refl token,
      )
      refl

-- A token that a preview handed out verifies within its lifetime for the same parameters' hash;
-- for another hash, and from its expiry on, it is refused with the matching error.
pub confirm_verify-begin :
    (settings : McpSettings) (token : Text) (hash again start now : ℕ)
    (confirms : List (Text × ConfirmEntry))
    → (confirm_verify settings token again now
        (confirm_begin settings token hash start confirms).1).0
      ≡ (if leb (start + settings.confirm_ttl_secs * 1000) now
          then err (ConfirmError.token_expired settings.confirm_ttl_secs)
          else if hash == again
          then ok tt
          else err ConfirmError.arguments_changed)
unfolding confirm_verify verify_entry
confirm_verify-begin settings token hash again start now confirms =
    rw (find_begun settings token hash start confirms) refl

earliest-length :
    (confirms : List (Text × ConfirmEntry)) (oldest : Text × ConfirmEntry)
    → earliest confirms ≡ some oldest
    → length (without oldest.0 confirms) < length confirms
unfolding earliest without
earliest-length [] oldest h = absurd (cc)
earliest-length ((token, entry) ∷ confirms) oldest h =
    ground
      (arith, earliest-length confirms oldest, length-without oldest.0 confirms, text_eq_refl token)

pub earliest_none :
    (token : Text) (confirms : List (Text × ConfirmEntry))
    → earliest confirms ≡ none
    → find token confirms ≡ none
unfolding earliest find
earliest_none token [] h = refl
earliest_none token (entry ∷ confirms) h = absurd (ground arith)

earliest_empty :
    (confirms : List (Text × ConfirmEntry)) → earliest confirms ≡ none → length confirms ≡ 0
unfolding earliest
earliest_empty [] h = omega arith
earliest_empty (entry ∷ confirms) h = absurd (ground arith)

make_room-length :
    (confirms : List (Text × ConfirmEntry))
    → length confirms ≤ max_confirm_entries
    → length (make_room confirms) < max_confirm_entries
unfolding make_room
make_room-length confirms h = elim (Option-cases (earliest confirms)) [
  | inl nothing ↦ ground (arith, earliest_empty confirms nothing)
  | inr (oldest, e) ↦ ground (arith, earliest-length confirms oldest e)
]

make_room-Distinct :
    (confirms : List (Text × ConfirmEntry)) → Distinct confirms → Distinct (make_room confirms)
unfolding make_room
make_room-Distinct confirms h = elim (Bool-cases (leb max_confirm_entries (length confirms))) [
  | inl full ↦ rw full (elim (Option-cases (earliest confirms)) [
    | inl nothing ↦ rw nothing h
    | inr (oldest, e) ↦ rw e (without-Distinct oldest.0 confirms h)
  ])
  | inr space ↦ rw space h
]

-- The table keeps distinct tokens and never holds more than 1024 of them.
pub confirm_begin-bounded :
    (settings : McpSettings) (token : Text) (hash now : ℕ) (confirms : List (Text × ConfirmEntry))
    → Distinct confirms
    → length confirms ≤ 1024
    → Distinct (confirm_begin settings token hash now confirms).1
      × (length (confirm_begin settings token hash now confirms).1 ≤ 1024)
unfolding confirm_begin
confirm_begin-bounded settings token hash now confirms d h =
    let live = keep (λ entry. ltb now entry.expires_at_millis) confirms in
    let roomy = make_room live in
    let entry : ConfirmEntry = record {
      hash = hash;
      expires_at_millis = now + settings.confirm_ttl_secs * 1000;
    } in
    (
      append-Distinct token entry (without token roomy) (find-without_self token roomy) (
          without-Distinct token roomy (
            make_room-Distinct live
              (keep-Distinct (λ entry. ltb now entry.expires_at_millis) confirms d))),
      omega (
        arith,
        h,
        keep-length (λ entry. ltb now entry.expires_at_millis) confirms,
        make_room-length live,
        length-without token roomy,
        length-append (without token roomy) ((token, entry) ∷ []),
      ),
    )
