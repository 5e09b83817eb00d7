-- ===== src/Prelude/Assoc.antt =====
-- Tables of keys and entries: the vectors and hash maps that the sources search by key.
use Prim.Native.Nat.{ℕ, suc, ◌+◌, ◌-◌, ◌≤◌, ◌<◌}
use mathlib.Core.Path.{◌≡◌, refl}
use mathlib.Core.Logic.{◌↔◌, inl, inr}
use mathlib.Core.Bool.{Bool, true, ◌&&◌}
use mathlib.Core.Option.{Option, none, some}
use mathlib.Core.List.{List, [], ◌∷◌, ◌++◌}
use native.Mathlib.Omega.{arith}
use dbx_plugin_files.Prelude.Tests.{if◌then◌else◌, Bool-cases}
use dbx_plugin_files.Prelude.Lists.{length, drop}
use dbx_plugin_files.Prelude.Text.{Text, text_eq, text_eq_iff}

-- Types with a decided equality, `Eq` in Rust.
pub record Eq {ℓ} (K : Type ℓ) : Type ℓ where
  pub same : K → K → Bool
  pub same_iff : (a b : K) → (same a b ≡ true) ↔ (a ≡ b)

instance abbrev pub text_key : Eq Text
text_key = record { same = text_eq; same_iff = text_eq_iff }

abbrev pub pair_same : Text × Text → Text × Text → Bool
pair_same a b = text_eq a.0 b.0 && text_eq a.1 b.1

pub pair_same_iff : (a b : Text × Text) → (pair_same a b ≡ true) ↔ (a ≡ b)
pair_same_iff (a, b) (c, d) = (
  λ h. ground (arith, text_eq_iff a c, text_eq_iff b d),
  λ h. ground (arith, text_eq_iff a c, text_eq_iff b d),
)

-- A connection and a path.
instance abbrev pub pair_key : Eq (Text × Text)
pair_key = record { same = pair_same; same_iff = pair_same_iff }

module _ {ℓ κ} {K : Type ℓ} {V : Type κ} ⦃e : Eq K⦄ where
  open e use {same, same_iff}

  unfoldable pub find : K → List (K × V) → Option V
  find k [] = none
  find k ((j, v) ∷ table) = if same j k then some v else find k table

  -- `retain(|(id, _)| id != key)`.
  unfoldable pub without : K → List (K × V) → List (K × V)
  without k [] = []
  without k ((j, v) ∷ table) =
      let rest = without k table in if same j k then rest else (j, v) ∷ rest

  -- No key stands twice.
  abbrev pub Distinct : List (K × V) → Type (ℓ ⊔ κ)
  Distinct [] = Unit
  Distinct ((k, v) ∷ table) = (find k table ≡ none) × Distinct table

  pub find-without :
      (j k : K) (table : List (K × V))
      → find j (without k table) ≡ (if same k j then none else find j table)
  unfolding find without
  find-without j k [] = ground arith
  find-without j k ((i, v) ∷ table) =
      ground (arith, find-without j k table, same_iff i k, same_iff i j, same_iff k j)

  pub find-append :
      (j k : K) (v : V) (table : List (K × V))
      → find k table ≡ none
      → find j (table ++ ((k, v) ∷ [])) ≡ (if same k j then some v else find j table)
  unfolding find
  find-append j k v [] h = refl
  find-append j k v ((i, w) ∷ table) h =
      ground (arith, find-append j k v table, same_iff i k, same_iff i j, same_iff k j)

  pub without-Distinct :
      (k : K) (table : List (K × V)) → Distinct table → Distinct (without k table)
  unfolding without
  without-Distinct k [] h = tt
  without-Distinct k ((i, v) ∷ table) h = elim (Bool-cases (same i k)) [
    | inl gone ↦ rw gone (without-Distinct k table h.1)
    | inr kept ↦ rw kept (ground (arith, find-without i k table, h.0), without-Distinct k table h.1)
  ]

  pub append-Distinct :
      (k : K) (v : V) (table : List (K × V))
      → find k table ≡ none
      → Distinct table
      → Distinct (table ++ ((k, v) ∷ []))
  unfolding find
  append-Distinct k v [] h d = (refl, tt)
  append-Distinct k v ((i, w) ∷ table) h d = (
    ground (arith, find-append i k v table, same_iff k i, same_iff i k),
    append-Distinct k v table (ground arith) d.1,
  )

  pub find-without_self : (k : K) (table : List (K × V)) → find k (without k table) ≡ none
  find-without_self k table = ground (arith, find-without k k table, same_iff k k)

  pub length-without : (k : K) (table : List (K × V)) → length (without k table) ≤ length table
  unfolding without
  length-without k [] = omega arith
  length-without k ((i, v) ∷ table) = ground (arith, length-without k table)

  pub drop-Distinct : (n : ℕ) (table : List (K × V)) → Distinct table → Distinct (drop n table)
  drop-Distinct Prim.Native.Nat.zero table h = h
  drop-Distinct (suc n) [] h = tt
  drop-Distinct (suc n) ((k, v) ∷ table) h = drop-Distinct n table h.1
