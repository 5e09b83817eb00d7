-- ===== src/Decisions/Coherence.antt =====
-- The map and the touch order of backend/src/rclone/list_decision.rs hold the same keys, and stay
-- within the capacity.
use dbx_plugin_files.Prelude.{
  ℕ, ◌+◌, ◌≡◌, refl, inl, inr, Bool, true, false, List, [], ◌∷◌, ◌++◌, Option, none, some, arith,
  length, if◌then◌else◌, Bool-cases, length-append,
}
use dbx_plugin_files.Prelude.Assoc.{
  pair_key, pair_same, pair_same_iff, find, without, Distinct, find-without, find-append,
  find-without_self, without-Distinct, append-Distinct,
}
use dbx_plugin_files.Decisions.Cache.{Key, Entry, Inner, forget, touch, invalidate}

abbrev pub member : Key → List Key → Bool
member key [] = false
member key (other ∷ order) = if pair_same other key then true else member key order

abbrev pub NoRepeat : List Key → Type 0
NoRepeat [] = Unit
NoRepeat (key ∷ order) = (member key order ≡ false) × NoRepeat order

abbrev pub has_entry : Option Entry → Bool
has_entry none = false
has_entry (some entry) = true

abbrev pub one_if : Bool → ℕ
one_if true = 1
one_if false = 0

-- The order has every key of the map once, and no other.
pub record IsCoherent (inner : Inner) : Type 0 where
  pub keys : Distinct inner.map
  pub once : NoRepeat inner.order
  pub alike : (key : Key) → member key inner.order ≡ has_entry (find key inner.map)
  pub sizes : length inner.map ≡ length inner.order

pub member-forget :
    (j k : Key) (order : List Key)
    → member j (forget k order) ≡ (if pair_same k j then false else member j order)
unfolding forget
member-forget j k [] = ground arith
member-forget j k (other ∷ order) = ground (
  arith,
  member-forget j k order,
  pair_same_iff other k,
  pair_same_iff other j,
  pair_same_iff k j,
)

pub forget-NoRepeat : (k : Key) (order : List Key) → NoRepeat order → NoRepeat (forget k order)
unfolding forget
forget-NoRepeat k [] h = h
forget-NoRepeat k (other ∷ order) h = elim (Bool-cases (pair_same other k)) [
  | inl gone ↦ rw gone (forget-NoRepeat k order h.1)
  | inr kept ↦
      rw kept (ground (arith, member-forget other k order, h.0), forget-NoRepeat k order h.1)
]

pub member-append :
    (j k : Key) (order : List Key)
    → member j (order ++ (k ∷ [])) ≡ (if pair_same k j then true else member j order)
member-append j k [] = refl
member-append j k (other ∷ order) = ground (arith, member-append j k order)

pub append-NoRepeat :
    (k : Key) (order : List Key)
    → member k order ≡ false
    → NoRepeat order
    → NoRepeat (order ++ (k ∷ []))
append-NoRepeat k [] m h = (refl, tt)
append-NoRepeat k (other ∷ order) m h = (
  ground (arith, member-append other k order, pair_same_iff k other, pair_same_iff other k, h.0),
  append-NoRepeat k order (ground arith) h.1,
)

pub length-forget :
    (k : Key) (order : List Key)
    → NoRepeat order
    → length (forget k order) + one_if (member k order) ≡ length order
unfolding forget
length-forget k [] h = omega arith
length-forget k (other ∷ order) h =
    ground (arith, length-forget k order h.1, h.0, pair_same_iff other k)

pub length-without_count :
    (k : Key) (table : List (Key × Entry))
    → Distinct table
    → length (without k table) + one_if (has_entry (find k table)) ≡ length table
unfolding without find
length-without_count k [] h = omega arith
length-without_count k ((other, entry) ∷ table) h =
    ground (arith, length-without_count k table h.1, h.0, pair_same_iff other k)

find_forgotten :
    (key other : Key) (inner : Inner)
    → IsCoherent inner
    → member other (forget key inner.order) ≡ has_entry (find other (without key inner.map))
find_forgotten key other inner h =
    ground
      (arith, member-forget other key inner.order, find-without other key inner.map, h.alike other)

pub invalidate-IsCoherent :
    (key : Key) (inner : Inner) → IsCoherent inner → IsCoherent (invalidate key inner)
unfolding invalidate
invalidate-IsCoherent key inner h = record {
  keys = without-Distinct key inner.map h.keys;
  once = forget-NoRepeat key inner.order h.once;
  alike = λ other. find_forgotten key other inner h;
  sizes = ground (
    arith,
    length-without_count key inner.map h.keys,
    length-forget key inner.order h.once,
    h.alike key,
    h.sizes,
  );
}

-- A key that the map has is moved to the end of the order.
pub touch-IsCoherent :
    (key : Key) (entry : Entry) (inner : Inner)
    → IsCoherent inner
    → find key inner.map ≡ some entry
    → IsCoherent (touch key inner)
unfolding touch
touch-IsCoherent key entry inner h found =
    let order = forget key inner.order in
    let fresh : member key order ≡ false =
      ground (arith, member-forget key key inner.order, pair_same_iff key key) in
    record {
      keys = h.keys;
      once = append-NoRepeat key order fresh (forget-NoRepeat key inner.order h.once);
      alike = λ other. ground (
        arith,
        member-append other key order,
        member-forget other key inner.order,
        h.alike other,
        found,
        pair_same_iff key other,
      );
      sizes = ground (
        arith,
        length-append order (key ∷ []),
        length-forget key inner.order h.once,
        h.alike key,
        found,
        h.sizes,
      );
    }

-- A new entry replaces the old one of its key, at the end of the order.
pub noted-IsCoherent :
    (key : Key) (entry : Entry) (inner : Inner)
    → IsCoherent inner
    → IsCoherent (touch key (record inner { map = without key inner.map ++ ((key, entry) ∷ []) }))
unfolding touch
noted-IsCoherent key entry inner h =
    let order = forget key inner.order in
    let rest = without key inner.map in
    let fresh : member key order ≡ false =
      ground (arith, member-forget key key inner.order, pair_same_iff key key) in
    let free = find-without_self key inner.map in
    record {
      keys = append-Distinct key entry rest free (without-Distinct key inner.map h.keys);
      once = append-NoRepeat key order fresh (forget-NoRepeat key inner.order h.once);
      alike = λ other. ground (
        arith,
        member-append other key order,
        find-append other key entry rest free,
        find_forgotten key other inner h,
      );
      sizes = ground (
        arith,
        length-append order (key ∷ []),
        length-append rest ((key, entry) ∷ []),
        length-forget key inner.order h.once,
        length-without_count key inner.map h.keys,
        h.alike key,
        h.sizes,
      );
    }
