-- ===== src/Mcp/Table.antt =====
-- The table of backend/src/mcp/state.rs keeps its keys distinct and stays within its capacity.
use dbx_plugin_files.Prelude.{
  ℕ, zero, suc, ◌-◌, ◌≤◌, ◌<◌, ◌≡◌, refl, sym, ap, ◌∙◌, ltb→lt, inl, inr, Bool, List, [], ◌∷◌, ◌++◌,
  none, some, arith, length, drop, ltb, length-append, length-drop, Bool-cases, Option-cases,
}
use dbx_plugin_files.Prelude.Text.{Text, text_eq, text_eq_refl}
use dbx_plugin_files.Prelude.Assoc.{
  text_key, find, without, Distinct, length-without, drop-Distinct, append-Distinct,
  without-Distinct, find-without_self, find-append,
}
use dbx_plugin_files.Mcp.Lru.{LruTable, evict, get, put, set_cap, remove, keep, retain}

module _ {ℓ} {V : Type ℓ} where
  -- The keys are distinct and there are no more entries than the capacity.
  abbrev pub IsBounded : LruTable V → Type ℓ
  IsBounded table = Distinct table.entries × (length table.entries ≤ table.capacity)

  drop_over :
      (entry : Text × V) (entries : List (Text × V)) (capacity n : ℕ)
      → capacity < suc n
      → drop (suc n - capacity) (entry ∷ entries) ≡ drop (n - capacity) entries
  drop_over entry entries capacity n h =
      let one_more : suc n - capacity ≡ suc (n - capacity) = omega arith in
      ap (λ m. drop m (entry ∷ entries)) one_more

  drop_under :
      (entry : Text × V) (entries : List (Text × V)) (capacity n : ℕ)
      → suc n ≤ capacity
      → drop (suc n - capacity) (entry ∷ entries) ≡ entry ∷ entries
  drop_under entry entries capacity n h =
      let nothing : suc n - capacity ≡ 0 = omega arith in ap (λ m. drop m (entry ∷ entries)) nothing

  -- Evicting drops the entries that have not been touched for longest.
  pub evict-drop :
      (capacity : ℕ) (entries : List (Text × V))
      → evict capacity entries ≡ drop (length entries - capacity) entries
  unfolding evict
  evict-drop capacity [] = ground arith
  evict-drop capacity (entry ∷ entries) = elim (Bool-cases (ltb capacity (suc (length entries)))) [
    | inl over ↦ rw over (
        evict-drop capacity entries
        ∙ sym (
            drop_over entry entries capacity (length entries)
              (ltb→lt capacity (suc (length entries)) over)))
    | inr fits ↦ rw fits (sym (drop_under entry entries capacity (length entries) (ground arith)))
  ]

  pub find-drop_one :
      (k : Text) (n : ℕ) (table : List (Text × V))
      → find k table ≡ none
      → find k (drop n table) ≡ none
  unfolding find
  find-drop_one k zero table h = h
  find-drop_one k (suc n) [] h = h
  find-drop_one k (suc n) ((j, v) ∷ table) h = find-drop_one k n table (ground arith)

  pub drop-append_short :
      (n : ℕ) (xs ys : List (Text × V)) → n ≤ length xs → drop n (xs ++ ys) ≡ drop n xs ++ ys
  drop-append_short zero xs ys h = refl
  drop-append_short (suc n) [] ys h = absurd (omega arith)
  drop-append_short (suc n) (x ∷ xs) ys h = drop-append_short n xs ys (omega arith)

  pub evict-length :
      (capacity : ℕ) (entries : List (Text × V)) → length (evict capacity entries) ≤ capacity
  evict-length capacity entries =
      rw (evict-drop capacity entries, length-drop (length entries - capacity) entries)
        (omega arith)

  pub evict-Distinct :
      (capacity : ℕ) (entries : List (Text × V))
      → Distinct entries
      → Distinct (evict capacity entries)
  evict-Distinct capacity entries h =
      rw (evict-drop capacity entries) (drop-Distinct (length entries - capacity) entries h)

  pub keep-none :
      (test : V → Bool) (k : Text) (entries : List (Text × V))
      → find k entries ≡ none
      → find k (keep test entries) ≡ none
  unfolding keep find
  keep-none test k [] h = h
  keep-none test k ((j, v) ∷ entries) h = ground (arith, keep-none test k entries)

  pub keep-Distinct :
      (test : V → Bool) (entries : List (Text × V))
      → Distinct entries
      → Distinct (keep test entries)
  unfolding keep
  keep-Distinct test [] h = h
  keep-Distinct test ((k, v) ∷ entries) h = elim (Bool-cases (test v)) [
    | inl kept ↦ rw kept (keep-none test k entries h.0, keep-Distinct test entries h.1)
    | inr gone ↦ rw gone (keep-Distinct test entries h.1)
  ]

  pub keep-length :
      (test : V → Bool) (entries : List (Text × V)) → length (keep test entries) ≤ length entries
  unfolding keep
  keep-length test [] = omega arith
  keep-length test ((k, v) ∷ entries) = ground (arith, keep-length test entries)

  pub put-IsBounded :
      (key : Text) (entry : V) (table : LruTable V)
      → IsBounded table
      → IsBounded (put key entry table)
  unfolding put
  put-IsBounded key entry table h = (
    evict-Distinct table.capacity (without key table.entries ++ ((key, entry) ∷ [])) (
        append-Distinct key entry (without key table.entries) (find-without_self key table.entries)
          (without-Distinct key table.entries h.0)),
    evict-length table.capacity (without key table.entries ++ ((key, entry) ∷ [])),
  )

  pub set_cap-IsBounded :
      (capacity : ℕ) (table : LruTable V) → IsBounded table → IsBounded (set_cap capacity table)
  unfolding set_cap
  set_cap-IsBounded capacity table h =
      (evict-Distinct capacity table.entries h.0, evict-length capacity table.entries)

  pub remove-IsBounded :
      (key : Text) (table : LruTable V) → IsBounded table → IsBounded ((remove key table).1)
  unfolding remove
  remove-IsBounded key table h =
      (without-Distinct key table.entries h.0, omega (arith, h.1, length-without key table.entries))

  pub retain-IsBounded :
      (test : V → Bool) (table : LruTable V) → IsBounded table → IsBounded (retain test table)
  unfolding retain
  retain-IsBounded test table h =
      (keep-Distinct test table.entries h.0, omega (arith, h.1, keep-length test table.entries))

  length-touched :
      (key : Text) (old : V) (entries : List (Text × V))
      → find key entries ≡ some old
      → length (without key entries) < length entries
  unfolding find without
  length-touched key old [] h = absurd (cc)
  length-touched key old ((k, v) ∷ entries) h = elim (Bool-cases (text_eq k key)) [
    | inl same ↦ rw same (omega (arith, length-without key entries))
    | inr other ↦
        rw other (let rest = length-touched key old entries (ground arith) in omega (arith, rest))
  ]

  pub get-none :
      (key : Text) (f : V → V) (table : LruTable V)
      → find key table.entries ≡ none
      → get key f table ≡ (none, table)
  unfolding get
  get-none key f table h = rw (h, get) refl

  pub get-some :
      (key : Text) (f : V → V) (table : LruTable V) (old : V)
      → find key table.entries ≡ some old
      → get key f table
        ≡ (some old, record table { entries = without key table.entries ++ ((key, f old) ∷ []) })
  unfolding get
  get-some key f table old h = rw (h, get) refl

  pub get-IsBounded :
      (key : Text) (f : V → V) (table : LruTable V)
      → IsBounded table
      → IsBounded ((get key f table).1)
  get-IsBounded key f table h = elim (Option-cases (find key table.entries)) [
    | inl missing ↦ rw (get-none key f table missing) h
    | inr (old, found) ↦ rw (get-some key f table old found) (
      append-Distinct key (f old) (without key table.entries) (find-without_self key table.entries)
          (without-Distinct key table.entries h.0),
      omega (
        arith,
        h.1,
        length-touched key old table.entries found,
        length-append (without key table.entries) ((key, f old) ∷ []),
      ),
    )
  ]

  -- A table that holds at least one entry finds what was put last.
  pub find-put :
      (key : Text) (entry : V) (table : LruTable V)
      → 1 ≤ table.capacity
      → find key (put key entry table).entries ≡ some entry
  unfolding put
  find-put key entry table h =
      let rest = without key table.entries in
      let n = length (rest ++ ((key, entry) ∷ [])) - table.capacity in
      rw
        (
          evict-drop table.capacity (rest ++ ((key, entry) ∷ [])),
          drop-append_short n rest ((key, entry) ∷ [])
              (omega (arith, h, length-append rest ((key, entry) ∷ []))),
          find-append key key entry (drop n rest)
              (find-drop_one key n rest (find-without_self key table.entries)),
          text_eq_refl key,
        )
        refl

  -- What `get` wrote is what the table finds from then on.
  pub find-get :
      (key : Text) (f : V → V) (table : LruTable V) (old : V)
      → find key table.entries ≡ some old
      → find key ((get key f table).1).entries ≡ some (f old)
  find-get key f table old h =
      rw
        (
          get-some key f table old h,
          find-append key key (f old) (without key table.entries)
              (find-without_self key table.entries),
          text_eq_refl key,
        )
        refl

  pub capacity_put :
      (key : Text) (entry : V) (capacity : ℕ) (table : LruTable V)
      → (put key entry (set_cap capacity table)).capacity ≡ capacity
  unfolding put set_cap
  capacity_put key entry capacity table = refl

  pub capacity_set :
      (capacity : ℕ) (table : LruTable V) → (set_cap capacity table).capacity ≡ capacity
  unfolding set_cap
  capacity_set capacity table = refl
