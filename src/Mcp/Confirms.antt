-- ===== src/Mcp/Confirms.antt =====
-- The confirm tokens of backend/src/mcp/state.rs: a preview hands one out, and its confirmation
-- consumes it. The hash map is the list of its entries in its own order.
use Prim.Native.Nat.{bit_xor}
use dbx_plugin_files.Prelude.{
  ℕ, ◌+◌, ◌*◌, ◌%◌, ◌^◌, List, [], ◌∷◌, ◌++◌, Option, none, some, length, ltb, leb, ◌==◌,
  if◌then◌else◌, Result, ok, err,
}
use dbx_plugin_files.Prelude.Text.{Text}
use dbx_plugin_files.Prelude.Assoc.{text_key, find, without}
use dbx_plugin_files.Mcp.Lru.{keep}
use dbx_plugin_files.Mcp.Settings.{McpSettings}

abbrev pub max_confirm_entries : ℕ
max_confirm_entries = 1024

-- `params_hash`: FNV-1a of the bytes of the encoded arguments.
unfoldable pub params_hash : List ℕ → ℕ → ℕ
params_hash [] hash = hash
params_hash (byte ∷ bytes) hash =
    params_hash bytes ((bit_xor hash byte * 0x00000100000001b3) % 2 ^ 64)

pub record ConfirmEntry : Type 0 where
  pub hash : ℕ
  pub expires_at_millis : ℕ

pub data ConfirmError : Type 0 where
  -- Unknown or already used.
  unknown_token : ConfirmError
  -- With the lifetime in seconds.
  token_expired : ℕ → ConfirmError
  arguments_changed : ConfirmError

-- `iter().min_by_key(|(_, entry)| entry.expires_at_millis)`: the first of the earliest.
unfoldable pub earliest : List (Text × ConfirmEntry) → Option (Text × ConfirmEntry)
earliest [] = none
earliest ((token, entry) ∷ confirms) =
    let rest = earliest confirms in
    (elim rest [
      | none ↦ some (token, entry)
      | some other ↦
          if leb entry.expires_at_millis (other.1).expires_at_millis
          then some (token, entry)
          else some other
    ])

-- Room for one more: a full table loses the token that expires first.
unfoldable pub make_room : List (Text × ConfirmEntry) → List (Text × ConfirmEntry)
unfolding earliest
make_room confirms =
    if leb max_confirm_entries (length confirms)
    then (elim (earliest confirms) [ none ↦ confirms | some oldest ↦ without oldest.0 confirms ])
    else confirms

-- The instant of expiry and the new table; `token` is the fresh identifier, `hash` the parameters' hash.
unfoldable pub confirm_begin :
    McpSettings → Text → ℕ → ℕ → List (Text × ConfirmEntry) → ℕ × List (Text × ConfirmEntry)
unfolding make_room
confirm_begin settings token hash now confirms =
    let live = keep (λ entry. ltb now entry.expires_at_millis) confirms in
    let roomy = make_room live in
    let expires = now + settings.confirm_ttl_secs * 1000 in
    (
      expires,
      without token roomy ++ ((token, record { hash = hash; expires_at_millis = expires }) ∷ []),
    )

-- The checks on the entry that was taken out.
unfoldable pub verify_entry :
    McpSettings → ℕ → ℕ → Option ConfirmEntry → Result ConfirmError (Unit {0})
verify_entry settings hash now none = err ConfirmError.unknown_token
verify_entry settings hash now (some entry) =
    if leb entry.expires_at_millis now
    then err (ConfirmError.token_expired settings.confirm_ttl_secs)
    else if entry.hash == hash
    then ok tt
    else err ConfirmError.arguments_changed

unfoldable pub confirm_verify :
    McpSettings
    → Text
    → ℕ
    → ℕ
    → List (Text × ConfirmEntry)
    → Result ConfirmError (Unit {0}) × List (Text × ConfirmEntry)
unfolding verify_entry
confirm_verify settings token hash now confirms =
    (verify_entry settings hash now (find token confirms), without token confirms)
