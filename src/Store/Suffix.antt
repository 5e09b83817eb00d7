-- ===== src/Store/Suffix.antt =====
-- The transfer history of backend/src/store.rs is the newest part of everything recorded.
use dbx_plugin_files.Prelude.{
  ℕ, zero, suc, ◌+◌, ◌-◌, ◌≤◌, ◌≡◌, refl, sym, ap, ◌∙◌, inl, inr, true, List, [], ◌∷◌, ◌++◌, arith,
  length, drop, ltb, Bool-cases, length-append, length-drop, append_assoc, append-nil,
}
use dbx_plugin_files.Store.Rings.{TransferRecord, stored, drain_oldest, record_transfer}

pub drain_oldest-drop :
    {A : Type 0} (limit : ℕ) (records : List A)
    → drain_oldest limit records ≡ drop (length records - limit) records
unfolding drain_oldest
drain_oldest-drop limit records = elim (Bool-cases (ltb limit (length records))) [
  | inl over ↦ rw over refl
  | inr fits ↦
      let nothing : length records - limit ≡ 0 = ground arith in
      rw fits (sym (ap (λ n. drop n records) nothing))
]

drop_over :
    {A : Type 0} (n : ℕ) (xs ys : List A) → n ≤ length xs → drop n (xs ++ ys) ≡ drop n xs ++ ys
drop_over zero xs ys h = refl
drop_over (suc n) [] ys h = absurd (omega (arith, h))
drop_over (suc n) (x ∷ xs) ys h = drop_over n xs ys (omega (arith, h))

drop_empty : {A : Type 0} (n : ℕ) → drop {A = A} n [] ≡ []
drop_empty zero = refl
drop_empty (suc n) = refl

drop_twice : {A : Type 0} (n m : ℕ) (xs : List A) → drop n (drop m xs) ≡ drop (m + n) xs
drop_twice n zero xs = ap (λ k. drop k xs) (omega arith)
drop_twice n (suc m) [] = drop_empty n ∙ sym (drop_empty (suc m + n))
drop_twice n (suc m) (x ∷ xs) =
    let more : suc m + n ≡ suc (m + n) = omega arith in
    drop_twice n m xs ∙ ap (λ k. drop k (x ∷ xs)) (sym more)

-- The newest records of a list and one more are the newest of all of them.
newest_step :
    (limit : ℕ) (entry : TransferRecord) (old : List TransferRecord)
    → drain_oldest limit (drop (length old - limit) old ++ (entry ∷ []))
      ≡ drop (length (old ++ (entry ∷ [])) - limit) (old ++ (entry ∷ []))
newest_step limit entry old =
    let k = length old - limit in
    let kept = drop k old ++ (entry ∷ []) in
    let whole : kept ≡ drop k (old ++ (entry ∷ [])) =
      sym (drop_over k old (entry ∷ []) (omega arith)) in
    let count : k + (length kept - limit) ≡ length (old ++ (entry ∷ [])) - limit = omega (
      arith,
      length-append (drop k old) (entry ∷ []),
      length-append old (entry ∷ []),
      length-drop k old,
    ) in
    drain_oldest-drop limit kept
    ∙ ap (λ xs. drop (length kept - limit) xs) whole
    ∙ drop_twice (length kept - limit) k (old ++ (entry ∷ []))
    ∙ ap (λ n. drop n (old ++ (entry ∷ []))) count

-- One record after the other, with writes that succeed.
unfoldable pub record_all : List TransferRecord → List TransferRecord → List TransferRecord
record_all [] records = records
record_all (entry ∷ entries) records = record_all entries (record_transfer true entry records).1

-- The history is always the newest 200 of all the records that were ever written, in their order.
pub record_all-newest :
    (entries old : List TransferRecord)
    → record_all entries (drop (length old - 200) old)
      ≡ drop (length (old ++ entries) - 200) (old ++ entries)
unfolding record_all record_transfer stored
record_all-newest [] old = rw (append-nil old) refl
record_all-newest (entry ∷ entries) old =
    ap (record_all entries) (newest_step 200 entry old)
    ∙ record_all-newest entries (old ++ (entry ∷ []))
    ∙ ap (λ xs. drop (length xs - 200) xs) (append_assoc old (entry ∷ []) entries)
