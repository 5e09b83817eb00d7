-- ===== src/Mcp/Lru.antt =====
-- `LruTable` of backend/src/mcp/state.rs: an ordered table, the least recently touched entry first.
use dbx_plugin_files.Prelude.{
  ℕ, Bool, List, [], ◌∷◌, ◌++◌, Option, none, some, length, ltb, if◌then◌else◌,
}
use dbx_plugin_files.Prelude.Text.{Text}
use dbx_plugin_files.Prelude.Assoc.{text_key, find, without}

pub record LruTable {ℓ} (V : Type ℓ) : Type ℓ where
  pub entries : List (Text × V)
  pub capacity : ℕ

module _ {ℓ} {V : Type ℓ} where
  -- `while self.entries.len() > self.cap { self.entries.remove(0); }`
  unfoldable pub evict : ℕ → List (Text × V) → List (Text × V)
  evict capacity [] = []
  evict capacity (entry ∷ entries) =
      let rest = evict capacity entries in
      if ltb capacity (length (entry ∷ entries)) then rest else entry ∷ entries

  unfoldable pub new : ℕ → LruTable V
  new capacity = record { entries = []; capacity = capacity }

  -- `get` moves the entry to the end and hands it out for writing: the new entry is `f` of the old.
  unfoldable pub get : Text → (V → V) → LruTable V → Option V × LruTable V
  get key f table = elim (find key table.entries) [
    | none ↦ (none, table)
    | some entry ↦
        (some entry, record table { entries = without key table.entries ++ ((key, f entry) ∷ []) })
  ]

  unfoldable pub put : Text → V → LruTable V → LruTable V
  unfolding evict
  put key entry table = record table {
    entries = evict table.capacity (without key table.entries ++ ((key, entry) ∷ []));
  }

  unfoldable pub set_cap : ℕ → LruTable V → LruTable V
  unfolding evict
  set_cap capacity table = record { entries = evict capacity table.entries; capacity = capacity }

  unfoldable pub remove : Text → LruTable V → Option V × LruTable V
  remove key table = (find key table.entries, record table { entries = without key table.entries })

  unfoldable pub keep : (V → Bool) → List (Text × V) → List (Text × V)
  keep test [] = []
  keep test ((key, entry) ∷ entries) =
      let rest = keep test entries in if test entry then (key, entry) ∷ rest else rest

  unfoldable pub retain : (V → Bool) → LruTable V → LruTable V
  unfolding keep
  retain test table = record table { entries = keep test table.entries }
