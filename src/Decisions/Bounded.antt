-- ===== src/Decisions/Bounded.antt =====
-- Recording a size in backend/src/rclone/list_decision.rs keeps the cache coherent and bounded.
use dbx_plugin_files.Prelude.{
  ℕ, zero, suc, ◌+◌, ◌-◌, ◌≤◌, ◌≡◌, refl, ap, inl, inr, true, false, List, [], ◌∷◌, ◌++◌, none,
  some, arith, length, ltb, leb, if◌then◌else◌, Bool-cases, Option-cases,
}
use dbx_plugin_files.Prelude.Assoc.{
  pair_key, find-append, find-without_self, pair_same_iff, find, without, find-without,
  without-Distinct,
}
use dbx_plugin_files.Decisions.Cache.{
  Key, Entry, Inner, cache_capacity, memory_ttl, escalate_threshold, forget, touch, evict_oldest,
  evict_while, invalidate, record_count, escalate_hint,
}
use dbx_plugin_files.Decisions.Coherence.{
  member-forget, member, IsCoherent, length-without_count, noted-IsCoherent, touch-IsCoherent,
  invalidate-IsCoherent,
}

-- Evicting the head of the order takes its entry out of the map.
evict_head-IsCoherent :
    (map : List (Key × Entry)) (order : List Key)
    → IsCoherent (record { map = map; order = order })
    → IsCoherent (evict_oldest (record { map = map; order = order }))
      × (length (evict_oldest (record { map = map; order = order })).map ≡ length map - 1)
unfolding evict_oldest
evict_head-IsCoherent map [] h = (h, ground (arith, h.sizes))
evict_head-IsCoherent map (oldest ∷ order) h =
    let count = length-without_count oldest map h.keys in
    let present = h.alike oldest in
    (
      record {
        keys = without-Distinct oldest map h.keys;
        once = h.once.1;
        alike = λ other. ground (
          arith,
          find-without other oldest map,
          h.alike other,
          h.once.0,
          pair_same_iff oldest other,
        );
        sizes = ground (arith, count, present, h.sizes, pair_same_iff oldest oldest);
      },
      ground (arith, count, present, pair_same_iff oldest oldest),
    )

evict_oldest-IsCoherent :
    (inner : Inner)
    → IsCoherent inner
    → IsCoherent (evict_oldest inner) × (length (evict_oldest inner).map ≡ length inner.map - 1)
evict_oldest-IsCoherent inner h = evict_head-IsCoherent inner.map inner.order h

evict_while-IsCoherent :
    (rounds : ℕ) (inner : Inner)
    → IsCoherent inner
    → length inner.map ≤ rounds + 256
    → IsCoherent (evict_while rounds inner) × (length (evict_while rounds inner).map ≤ 256)
unfolding evict_while
evict_while-IsCoherent zero inner h enough = (h, omega (arith, enough))
evict_while-IsCoherent (suc rounds) inner h enough =
    elim (Bool-cases (ltb cache_capacity (length inner.map))) [
      | inr fits ↦ rw fits (h, ground arith)
      | inl over ↦
          let (next, size) = evict_oldest-IsCoherent inner h in
          rw over
            (evict_while-IsCoherent rounds (evict_oldest inner) next (omega (arith, enough, size)))
    ]

-- Recording a size keeps the same keys in the map and in the order, each once, and at most 256.
pub record_count-IsCoherent :
    (key : Key) (count now : ℕ) (inner : Inner)
    → IsCoherent inner
    → IsCoherent (record_count key count now inner)
      × (length (record_count key count now inner).map ≤ 256)
unfolding record_count
record_count-IsCoherent key count now inner h =
    let entry : Entry = record { count = count; noted_at = now } in
    let noted = touch key (record inner { map = without key inner.map ++ ((key, entry) ∷ []) }) in
    evict_while-IsCoherent (length noted.map) noted (noted-IsCoherent key entry inner h)
      (omega arith)

hint_late :
    (key : Key) (entry : Entry) (now : ℕ) (inner : Inner)
    → find key inner.map ≡ some entry
    → ltb memory_ttl (now - entry.noted_at) ≡ true
    → escalate_hint key now inner ≡ (false, invalidate key inner)
unfolding escalate_hint
hint_late key entry now inner found late = rw (escalate_hint, found, late) refl

hint_live :
    (key : Key) (entry : Entry) (now : ℕ) (inner : Inner)
    → find key inner.map ≡ some entry
    → ltb memory_ttl (now - entry.noted_at) ≡ false
    → escalate_hint key now inner ≡ (leb escalate_threshold entry.count, touch key inner)
unfolding escalate_hint
hint_live key entry now inner found live = rw (escalate_hint, found, live) refl

hint_missing :
    (key : Key) (now : ℕ) (inner : Inner)
    → find key inner.map ≡ none
    → escalate_hint key now inner ≡ (false, inner)
unfolding escalate_hint
hint_missing key now inner missing = rw (escalate_hint, missing) refl

-- No question breaks the cache, whether its key is unknown, expired or live.
pub escalate_hint-IsCoherent :
    (key : Key) (now : ℕ) (inner : Inner)
    → IsCoherent inner
    → IsCoherent (escalate_hint key now inner).1
escalate_hint-IsCoherent key now inner h = elim (Option-cases (find key inner.map)) [
  | inl missing ↦ rw (hint_missing key now inner missing) h
  | inr (entry, found) ↦ (elim (Bool-cases (ltb memory_ttl (now - entry.noted_at))) [
    | inl late ↦ rw (hint_late key entry now inner found late) (invalidate-IsCoherent key inner h)
    | inr live ↦
        rw (hint_live key entry now inner found live) (touch-IsCoherent key entry inner h found)
  ])
]

-- Evicting never takes the last key of the order while it is over the capacity.
evict_while-find :
    (rounds : ℕ) (map : List (Key × Entry)) (front : List Key) (key : Key) (entry : Entry)
    → IsCoherent (record { map = map; order = front ++ (key ∷ []) })
    → member key front ≡ false
    → find key map ≡ some entry
    → find key (evict_while rounds (record { map = map; order = front ++ (key ∷ []) })).map
      ≡ some entry
unfolding evict_while evict_oldest
evict_while-find zero map front key entry h m found = found
evict_while-find (suc rounds) map [] key entry h m found =
    let one : length map ≡ 1 = h.sizes in
    let fits : ltb cache_capacity (length map) ≡ false = ground arith in rw fits found
evict_while-find (suc rounds) map (oldest ∷ front) key entry h m found =
    elim (Bool-cases (ltb cache_capacity (length map))) [
      | inr fits ↦ rw fits found
      | inl over ↦
          let (next, size) = evict_head-IsCoherent map (oldest ∷ (front ++ (key ∷ []))) h in
          rw over (
            evict_while-find rounds (without oldest map) front key entry next (ground arith)
              (ground (arith, find-without key oldest map)))
    ]

-- On a memory whose map and touch order agree, and asked with nothing recorded or invalidated in
-- between, a recorded size counts for five minutes: the directory is then streamed right away exactly
-- when it had at least 20000 entries; later the answer is no. Neither the eviction by the record itself
-- nor an older size of the same directory changes it.
pub escalate_hint-record_count :
    (key : Key) (count noted now : ℕ) (inner : Inner)
    → IsCoherent inner
    → (escalate_hint key now (record_count key count noted inner)).0
      ≡ (if ltb 300000 (now - noted) then false else leb 20000 count)
unfolding record_count touch
escalate_hint-record_count key count noted now inner h =
    let entry : Entry = record { count = count; noted_at = noted } in
    let map = without key inner.map ++ ((key, entry) ∷ []) in
    let front = forget key inner.order in
    let coherent = noted-IsCoherent key entry inner h in
    let free : member key front ≡ false =
      ground (arith, member-forget key key inner.order, pair_same_iff key key) in
    let here : find key map ≡ some entry = ground (
      arith,
      find-append key key entry (without key inner.map) (find-without_self key inner.map),
      pair_same_iff key key,
    ) in
    let found = evict_while-find (length map) map front key entry coherent free here in
    elim (Bool-cases (ltb memory_ttl (now - noted))) [
      | inl late ↦ rw late (ap (λ r. r.0) (hint_late key entry now _ found late))
      | inr live ↦ rw live (ap (λ r. r.0) (hint_live key entry now _ found live))
    ]
