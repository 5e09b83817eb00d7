-- ===== src/Mcp/Intents.antt =====
-- The intents of backend/src/mcp/state.rs: registered by a tool, answered by the frontend's report.
use dbx_plugin_files.Prelude.{
  ℕ, ◌+◌, ◌||◌, [], ◌∷◌, Option, none, some, ltb, leb, if◌then◌else◌, Result, ok, err,
}
use dbx_plugin_files.Prelude.Text.{Text, codes, text_eq, trim}
use dbx_plugin_files.Mcp.Json.{Json}
use dbx_plugin_files.Mcp.Lru.{LruTable, get, put, remove, retain}

abbrev pub intent_ttl_millis : ℕ
intent_ttl_millis = 60000

abbrev pub intent_max_entries : ℕ
intent_max_entries = 20

module _ (json : Json) where
  open json use {Value, lookup, as_str, object}

  pub record IntentEntry : Type 0 where
    pub action : Text
    pub params : Value
    -- pending, applied or rejected.
    pub status : Text
    pub summary : Option Value
    pub reason : Option Text
    pub expires_at_millis : ℕ

  -- `LookupStatus`, and the fields of the answer when it is found.
  pub data IntentLookup : Type 0 where
    found : Text → Text → Option Value → Option Text → IntentLookup
    expired : IntentLookup
    unknown : IntentLookup

  pub data ReportError : Type 0 where
    bad_status : ReportError
    unknown_intent : Text → ReportError

  -- The tables that a report writes.
  pub record Reports : Type 0 where
    pub intents : LruTable IntentEntry
    pub snapshot : Option Value

  unfoldable pub register_intent :
      Text → Text → Value → ℕ → LruTable IntentEntry → LruTable IntentEntry
  register_intent intent_id action params now intents =
      put intent_id
        (record {
          action = action;
          params = params;
          status = codes "pending";
          summary = none;
          reason = none;
          expires_at_millis = now + intent_ttl_millis;
        })
        (retain (λ entry. ltb now entry.expires_at_millis) intents)

  -- `params.get("intentId").and_then(as_str).map(trim).filter(not empty)`.
  unfoldable pub report_id : Value → Option Text
  report_id params = elim (lookup (codes "intentId") params) [
    | none ↦ none
    | some field ↦ (elim (as_str field) [
      | none ↦ none
      | some text ↦ (elim (trim text) [ [] ↦ none | c ∷ rest ↦ some (c ∷ rest) ])
    ])
  ]

  unfoldable pub text_field : Text → Value → Option Text
  text_field key params = elim (lookup key params) [
    | none ↦ none
    | some field ↦ (elim (as_str field) [ none ↦ none | some text ↦ some (trim text) ])
  ]

  unfoldable pub report_status : Value → Text
  unfolding text_field
  report_status params = elim (text_field (codes "status") params) [
    | none ↦ codes "applied"
    | some status ↦ status
  ]

  -- What a report writes into a live entry.
  unfoldable pub answered : Text → Value → ℕ → IntentEntry → IntentEntry
  unfolding text_field
  answered status params now entry =
      if ltb now entry.expires_at_millis
      then record entry {
        status = status;
        summary = lookup (codes "summary") params;
        reason = text_field (codes "reason") params;
      }
      else entry

  -- The answer from what `get` found and from the table it left.
  unfoldable pub acknowledged :
      Text
      → ℕ
      → Option IntentEntry × LruTable IntentEntry
      → Result ReportError (Unit {0}) × LruTable IntentEntry
  acknowledged id now (none, intents) = (err (ReportError.unknown_intent id), intents)
  acknowledged id now (some old, intents) =
      if ltb now old.expires_at_millis
      then (ok tt, intents)
      else (err (ReportError.unknown_intent id), (remove id intents).1)

  unfoldable pub report_intent :
      Text
      → Text
      → Value
      → ℕ
      → LruTable IntentEntry
      → Result ReportError (Unit {0}) × LruTable IntentEntry
  report_intent id status params now intents =
      acknowledged id now (get id (answered status params now) intents)

  unfoldable pub report : Value → ℕ → Reports → Result ReportError (Unit {0}) × Reports
  unfolding report_intent report_status report_id
  report params now reports = elim (report_id params) [
    | some id ↦
        let status = report_status params in
        if text_eq status (codes "applied") || text_eq status (codes "rejected")
        then (let (result, intents) = report_intent id status params now reports.intents in
            (result, record reports { intents = intents }))
        else (err ReportError.bad_status, reports)
    | none ↦ (elim (lookup (codes "summary") params) [
      | none ↦ (ok tt, record reports { snapshot = some (object []) })
      | some summary ↦ (ok tt, record reports { snapshot = some summary })
    ])
  ]

  unfoldable pub looked_up :
      Text → ℕ → Option IntentEntry × LruTable IntentEntry → IntentLookup × LruTable IntentEntry
  looked_up intent_id now (none, intents) = (IntentLookup.unknown, intents)
  looked_up intent_id now (some old, intents) =
      if leb old.expires_at_millis now
      then (IntentLookup.expired, (remove intent_id intents).1)
      else (IntentLookup.found old.action old.status old.summary old.reason, intents)

  unfoldable pub intent_lookup :
      Text → ℕ → LruTable IntentEntry → IntentLookup × LruTable IntentEntry
  intent_lookup intent_id now intents = looked_up intent_id now (get intent_id (λ old. old) intents)
