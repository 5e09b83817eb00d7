-- ===== src/Mcp/Tests.antt =====
-- Tests of the model of backend/src/mcp/state.rs, and the theorems at concrete inputs.
use dbx_plugin_files.Prelude.{◌≡◌, refl, err, none, some, [], ◌∷◌, List, Option, arith, take}
use dbx_plugin_files.Prelude.Text.{Text, codes}
use dbx_plugin_files.Prelude.Assoc.{text_key}
use dbx_plugin_files.Mcp.Samples.{nodes, Node, to_fields}
use dbx_plugin_files.Mcp.Lru.{LruTable}
use dbx_plugin_files.Mcp.Settings.{McpSettings, default_settings}
use dbx_plugin_files.Mcp.Cursors.{CursorSession, cursor_put}
use dbx_plugin_files.Mcp.Reading.{read_pages, read_pages-cursor_put}
use dbx_plugin_files.Mcp.Confirms.{ConfirmEntry, ConfirmError, confirm_verify, params_hash}
use dbx_plugin_files.Mcp.Tokens.{confirm_verify_once}
use dbx_plugin_files.Mcp.Intents.{IntentEntry}

abbrev no_failure : McpSettings → Option Text
no_failure settings = none

abbrev small_response : Node
small_response = Node.object (to_fields ((codes "responseLimitBytes", Node.number 512) ∷ []))

abbrev three_rows : List Text
three_rows = codes "/a" ∷ codes "/b" ∷ codes "/c" ∷ []

abbrev three_row_session : CursorSession
three_row_session = record { rows = three_rows; offset = 0; expires_at_millis = 1000 }

abbrev one_cursor : LruTable CursorSession
one_cursor = record { entries = (codes "cur-1", three_row_session) ∷ []; capacity = 8 }

abbrev two_tokens : List (Text × ConfirmEntry)
two_tokens =
    (codes "c-1", record { hash = 7; expires_at_millis = 500 })
    ∷ (codes "c-2", record { hash = 8; expires_at_millis = 900 })
    ∷ []

abbrev no_intents : LruTable (IntentEntry nodes)
no_intents = record { entries = []; capacity = 20 }

abbrev pending_entry : IntentEntry nodes
pending_entry = record {
  action = codes "open";
  params = Node.null;
  status = codes "pending";
  summary = none;
  reason = none;
  expires_at_millis = 1000;
}

abbrev one_intent : LruTable (IntentEntry nodes)
one_intent = record { entries = (codes "i-1", pending_entry) ∷ []; capacity = 20 }

hash_empty : params_hash [] 0xcbf29ce484222325 ≡ 0xcbf29ce484222325
unfolding params_hash
hash_empty = refl

-- The published FNV-1a value of "a".
hash_a : params_hash (codes "a") 0xcbf29ce484222325 ≡ 0xaf63dc4c8601ec8c
unfolding params_hash
hash_a = refl

read_pages-cursor_put_example :
    read_pages default_settings
      (codes "cur-2")
      2
      11
      4
      (cursor_put default_settings (codes "cur-2") 10 three_rows one_cursor).1
    ≡ some (take 10000 three_rows)
read_pages-cursor_put_example =
    read_pages-cursor_put default_settings (codes "cur-2") 2 10 11 4 three_rows one_cursor
      (omega arith) (omega arith) (omega arith) (omega arith)

confirm_verify_once_example :
    (confirm_verify default_settings
      (codes "c-1")
      7
      20
      (confirm_verify default_settings (codes "c-1") 7 10 two_tokens).1).0
    ≡ err ConfirmError.unknown_token
confirm_verify_once_example =
    confirm_verify_once default_settings (codes "c-1") 7 10 7 20 two_tokens
