-- ===== src/Prelude/Split.antt =====
-- Laws of `split` and `join` on texts.
use Prim.Native.Nat.{ℕ}
use mathlib.Core.Path.{◌≡◌, refl, ap}
use mathlib.Core.Logic.{inl, inr}
use mathlib.Core.Bool.{Bool, false}
use mathlib.Core.List.{List, [], ◌∷◌, ◌++◌, reverse, reverse_aux}
use native.Mathlib.Omega.{arith}
use dbx_plugin_files.Prelude.Tests.{◌==◌, ==_refl, Bool-cases}
use dbx_plugin_files.Prelude.Lists.{any, All}
use dbx_plugin_files.Prelude.Text.{Text, cons_head, split_on, join, Lacks}

module _ {ℓ κ} {A : Type ℓ} (P : A → Type κ) where
  All-reverse_aux : (xs ys : List A) → All P xs → All P ys → All P (reverse_aux xs ys)
  All-reverse_aux [] ys hx hy = hy
  All-reverse_aux (x ∷ xs) ys hx hy = All-reverse_aux xs (x ∷ ys) hx.1 (hx.0, hy)

  pub All-reverse : (xs : List A) → All P xs → All P (reverse xs)
  All-reverse xs h = All-reverse_aux xs [] h tt

module _ {ℓ} {A : Type ℓ} (p : A → Bool) where
  pub any→All : (xs : List A) → any p xs ≡ false → All (λ x. p x ≡ false) xs
  any→All [] h = tt
  any→All (x ∷ xs) h = (ground arith, any→All xs (ground arith))

  pub All→any : (xs : List A) → All (λ x. p x ≡ false) xs → any p xs ≡ false
  All→any [] h = refl
  All→any (x ∷ xs) h = ground (arith, All→any xs h.1)

cons_head-All {κ} :
    (P : ℕ → Type κ) (c : ℕ) (parts : List Text)
    → P c
    → All (All P) parts
    → All (All P) (cons_head c parts)
unfolding cons_head
cons_head-All P c [] p h = ((p, tt), tt)
cons_head-All P c (part ∷ parts) p h = ((p, h.0), h.1)

module _ (sep : ℕ) where
  -- No part holds the separator.
  pub split_on-Lacks : (s : Text) → All (Lacks sep) (split_on sep s)
  unfolding split_on
  split_on-Lacks [] = (tt, tt)
  split_on-Lacks (c ∷ s) = elim (Bool-cases (c == sep)) [
    | inl same ↦ rw same (tt, split_on-Lacks s)
    | inr other ↦
        rw other (unfold cons_head in cons_head-All _ c (split_on sep s) other (split_on-Lacks s))
  ]

  -- What holds of every character holds in every part.
  pub split_on-All {κ} : (P : ℕ → Type κ) (s : Text) → All P s → All (All P) (split_on sep s)
  unfolding split_on
  split_on-All P [] h = (tt, tt)
  split_on-All P (c ∷ s) h = elim (Bool-cases (c == sep)) [
    | inl same ↦ rw same (tt, split_on-All P s h.1)
    | inr other ↦
        rw other (unfold cons_head in cons_head-All P c (split_on sep s) h.0 (split_on-All P s h.1))
  ]

  pub split_on-sep :
      (p rest : Text) → Lacks sep p → split_on sep (p ++ (sep ∷ rest)) ≡ p ∷ split_on sep rest
  unfolding split_on
  split_on-sep [] rest h = ground (arith, ==_refl sep)
  split_on-sep (c ∷ p) rest h = ground (arith, split_on-sep p rest h.1)

  pub split_on_whole : (p : Text) → Lacks sep p → split_on sep p ≡ p ∷ []
  unfolding split_on
  split_on_whole [] h = refl
  split_on_whole (c ∷ p) h = ground (arith, split_on_whole p h.1)

  -- Splitting a join gives the parts back.
  pub split_on-join :
      (part : Text) (parts : List Text)
      → Lacks sep part
      → All (Lacks sep) parts
      → split_on sep (join sep (part ∷ parts)) ≡ part ∷ parts
  unfolding join
  split_on-join part [] h hs = split_on_whole part h
  split_on-join part (next ∷ parts) h hs =
      rw split_on-sep (ap (◌∷◌ part) (split_on-join next parts hs.0 hs.1))
