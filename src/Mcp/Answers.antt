-- ===== src/Mcp/Answers.antt =====
-- What a lookup of an intent answers in backend/src/mcp/state.rs behind its registration and report.
use dbx_plugin_files.Prelude.{
  ℕ, ◌+◌, ◌≤◌, ◌<◌, ◌≡◌, refl, ap, inl, inr, true, false, none, some, arith, ltb, leb,
  if◌then◌else◌, ok, err, Bool-cases,
}
use dbx_plugin_files.Prelude.Text.{Text, codes}
use dbx_plugin_files.Prelude.Assoc.{text_key, find, find-without_self}
use dbx_plugin_files.Mcp.Json.{Json}
use dbx_plugin_files.Mcp.Lru.{LruTable, get, remove, retain}
use dbx_plugin_files.Mcp.Table.{get-none, get-some, find-get, find-put}
use dbx_plugin_files.Mcp.Intents.{
  IntentEntry, IntentLookup, ReportError, register_intent, text_field, answered, acknowledged,
  report_intent, looked_up, intent_lookup,
}

module _ (json : Json) where
  open json use {Value, lookup}

  abbrev describe : IntentEntry json → IntentLookup json
  describe entry = IntentLookup.found entry.action entry.status entry.summary entry.reason

  lookup_found :
      (id : Text) (now : ℕ) (intents : LruTable (IntentEntry json)) (entry : IntentEntry json)
      → find id intents.entries ≡ some entry
      → (intent_lookup json id now intents).0
        ≡ (if leb entry.expires_at_millis now then IntentLookup.expired else describe entry)
  unfolding intent_lookup looked_up
  lookup_found id now intents entry h =
      let e = get-some id (λ old. old) intents entry h in
      (elim (Bool-cases (leb entry.expires_at_millis now)) [
        | inl late ↦ rw (intent_lookup, e, looked_up, late) refl
        | inr live ↦ rw (intent_lookup, e, looked_up, live) refl
      ])

  lookup_missing :
      (id : Text) (now : ℕ) (intents : LruTable (IntentEntry json))
      → find id intents.entries ≡ none
      → (intent_lookup json id now intents).0 ≡ IntentLookup.unknown
  unfolding intent_lookup looked_up
  lookup_missing id now intents h =
      rw (intent_lookup, get-none id (λ old. old) intents h, looked_up) refl

  reported_live :
      (id status : Text) (params : Value) (now : ℕ) (intents : LruTable (IntentEntry json))
      (entry : IntentEntry json)
      → find id intents.entries ≡ some entry
      → now < entry.expires_at_millis
      → report_intent json id status params now intents
        ≡ (ok tt, (get id (answered json status params now) intents).1)
  unfolding report_intent acknowledged
  reported_live id status params now intents entry h live =
      let fresh : ltb now entry.expires_at_millis ≡ true = ground arith in
      rw
        (
          report_intent,
          get-some id (answered json status params now) intents entry h,
          acknowledged,
          fresh,
        )
        refl

  reported_late :
      (id status : Text) (params : Value) (now : ℕ) (intents : LruTable (IntentEntry json))
      (entry : IntentEntry json)
      → find id intents.entries ≡ some entry
      → entry.expires_at_millis ≤ now
      → report_intent json id status params now intents ≡ (
        err (ReportError.unknown_intent id),
        (remove id (get id (answered json status params now) intents).1).1,
      )
  unfolding report_intent acknowledged
  reported_late id status params now intents entry h late =
      let over : ltb now entry.expires_at_millis ≡ false = ground arith in
      rw
        (
          report_intent,
          get-some id (answered json status params now) intents entry h,
          acknowledged,
          over,
        )
        refl

  -- A registered intent is found as pending for 60 seconds, and then it is expired.
  pub intent_lookup-register_intent :
      (id action : Text) (params : Value) (start now : ℕ) (intents : LruTable (IntentEntry json))
      → 1 ≤ intents.capacity
      → (intent_lookup json id now (register_intent json id action params start intents)).0 ≡ (
          if leb (start + 60000) now
          then IntentLookup.expired
          else IntentLookup.found action (codes "pending") none none)
  unfolding register_intent retain
  intent_lookup-register_intent id action params start now intents room =
      lookup_found id now (register_intent json id action params start intents) _
        (find-put id _ (retain (λ entry. ltb start entry.expires_at_millis) intents) room)

  -- A report on a live intent is acknowledged, and a lookup within the intent's lifetime answers the
  -- reported status, summary and reason with the registered action.
  pub intent_lookup-report_intent :
      (id status : Text) (params : Value) (start now : ℕ) (intents : LruTable (IntentEntry json))
      (entry : IntentEntry json)
      → find id intents.entries ≡ some entry
      → start < entry.expires_at_millis
      → now < entry.expires_at_millis
      → ((report_intent json id status params start intents).0 ≡ ok tt)
        × ((intent_lookup json id now (report_intent json id status params start intents).1).0
            ≡ IntentLookup.found entry.action status
                (lookup (codes "summary") params)
                (text_field json (codes "reason") params))
  unfolding answered
  intent_lookup-report_intent id status params start now intents entry h live later =
      let e = reported_live id status params start intents entry h live in
      let written = find-get id (answered json status params start) intents entry h in
      let fresh : ltb start entry.expires_at_millis ≡ true = ground arith in
      let lasting : leb entry.expires_at_millis now ≡ false = ground arith in
      (
        ap (λ r. r.0) e,
        rw
            (
              e,
              lookup_found id now (get id (answered json status params start) intents).1 _ written,
              fresh,
              lasting,
            )
            refl,
      )

  -- A report on an expired intent is refused like one on an unknown intent, and the intent is
  -- forgotten.
  pub report_intent_expired :
      (id status : Text) (params : Value) (start now : ℕ) (intents : LruTable (IntentEntry json))
      (entry : IntentEntry json)
      → find id intents.entries ≡ some entry
      → entry.expires_at_millis ≤ start
      → ((report_intent json id status params start intents).0
          ≡ err (ReportError.unknown_intent id))
        × ((intent_lookup json id now (report_intent json id status params start intents).1).0
            ≡ IntentLookup.unknown)
  unfolding remove
  report_intent_expired id status params start now intents entry h late =
      let e = reported_late id status params start intents entry h late in
      let left = (get id (answered json status params start) intents).1 in
      (
        ap (λ r. r.0) e,
        rw e (lookup_missing id now ((remove id left).1) (find-without_self id left.entries)),
      )
