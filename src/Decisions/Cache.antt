-- ===== src/Decisions/Cache.antt =====
-- `DecisionCache` of backend/src/rclone/list_decision.rs: sizes by connection and path, with the
-- order in which they were touched.
use mathlib.Core.List.{reverse}
use dbx_plugin_files.Prelude.{
  ℕ, zero, suc, ◌-◌, Bool, false, List, [], ◌∷◌, ◌++◌, Option, none, some, length, ltb, leb,
  if◌then◌else◌, ◌==◌,
}
use dbx_plugin_files.Prelude.Text.{Text, codes, trim_end_matches}
use dbx_plugin_files.Prelude.Assoc.{pair_key, pair_same, find, without}

abbrev pub escalate_threshold : ℕ
escalate_threshold = 20000

abbrev pub cache_capacity : ℕ
cache_capacity = 256

-- `TTL` in milliseconds.
abbrev pub memory_ttl : ℕ
memory_ttl = 300000

-- A connection and a path.
abbrev pub Key : Type 0
Key = Text × Text

pub record Entry : Type 0 where
  pub count : ℕ
  pub noted_at : ℕ

pub record Inner : Type 0 where
  pub map : List (Key × Entry)
  -- The least recently touched key first.
  pub order : List Key

abbrev pub empty_cache : Inner
empty_cache = record { map = []; order = [] }

-- Behind the last `/`, reversed: what `rfind` leaves in front of it.
unfoldable pub before_last : Text → Option Text
before_last [] = none
before_last (c ∷ rest) = if c == b'/' then some rest else before_last rest

unfoldable pub parent_of : Text → Text
unfolding before_last trim_end_matches
parent_of path = elim (before_last (reverse (trim_end_matches (λ c. c == b'/') path))) [
  | none ↦ codes "/"
  | some [] ↦ codes "/"
  | some (c ∷ rest) ↦ reverse (c ∷ rest)
]

-- `order.retain(|k| *k != key)`.
unfoldable pub forget : Key → List Key → List Key
forget key [] = []
forget key (other ∷ order) =
    let rest = forget key order in if pair_same other key then rest else other ∷ rest

unfoldable pub touch : Key → Inner → Inner
unfolding forget
touch key inner = record inner { order = forget key inner.order ++ (key ∷ []) }

unfoldable pub evict_oldest : Inner → Inner
evict_oldest inner = elim inner.order [
  | [] ↦ inner
  | oldest ∷ order ↦ record { map = without oldest inner.map; order = order }
]

-- `while map.len() > CAPACITY`; the first argument is the rounds left.
unfoldable pub evict_while : ℕ → Inner → Inner
unfolding evict_oldest
evict_while zero inner = inner
evict_while (suc rounds) inner =
    let next = evict_while rounds (evict_oldest inner) in
    if ltb cache_capacity (length inner.map) then next else inner

-- Invalidation of one key.
unfoldable pub invalidate : Key → Inner → Inner
unfolding forget
invalidate key inner = record { map = without key inner.map; order = forget key inner.order }

unfoldable pub invalidate_around : Text → Text → Inner → Inner
invalidate_around connection_id path inner =
    invalidate (connection_id, parent_of path) (invalidate (connection_id, path) inner)

-- `record`, with as many rounds as there are entries.
unfoldable pub record_count : Key → ℕ → ℕ → Inner → Inner
unfolding touch evict_while
record_count key count now inner =
    let noted = touch key (record inner {
      map = without key inner.map ++ ((key, record { count = count; noted_at = now }) ∷ []);
    }) in
    evict_while (length noted.map) noted

-- Whether to stream right away, and the cache behind the question.
unfoldable pub escalate_hint : Key → ℕ → Inner → Bool × Inner
unfolding touch invalidate
escalate_hint key now inner = elim (find key inner.map) [
  | none ↦ (false, inner)
  | some entry ↦
      if ltb memory_ttl (now - entry.noted_at)
      then (false, invalidate key inner)
      else (leb escalate_threshold entry.count, touch key inner)
]
