-- ===== src/Archive/Pages.antt =====
-- The pages of an archive's listing, `paginate` of backend/src/archive.rs.
use dbx_plugin_files.Prelude.{
  ℕ, zero, suc, ◌+◌, ◌-◌, ◌*◌, ◌/◌, ◌^◌, ◌≤◌, ◌<◌, ◌≡◌, ◌⊎◌, inl, inr, ap, ◌∙◌, max, arith,
}
use native.Mathlib.Nat.{mod-lt, div-add-mod}
use dbx_plugin_files.Archive.Listing.{paginate}

-- The windows of one page and of the next.
abbrev Adjoin : ℕ → ℕ → ℕ × ℕ → ℕ × ℕ → Type 0
Adjoin total width window next =
    (window.0 ≤ window.1) × (window.1 ≤ total) × (window.1 ≤ window.0 + width) × (next.0 ≡ window.1)

-- An entry lies in a window.
abbrev Holds : ℕ → ℕ × ℕ → Type 0
Holds i window = (window.0 ≤ i) × (i < window.1)

grown : (page width : ℕ) → suc page * width ≡ page * width + width
grown page width = grind arith

apart : (page width : ℕ) → (page * width ≡ 0) ⊎ (width ≤ page * width)
apart zero width = inl (omega arith)
apart (suc page) width = inr (grind arith)

-- An index lies on the page of its quotient.
on_page : (i width : ℕ) → 0 < width → (i / width * width ≤ i) × (i < i / width * width + width)
on_page i width some_width =
    let whole = div-add-mod i width in let short = mod-lt i some_width in (grind arith, grind arith)

paginate-Holds :
    (total page_size i : ℕ)
    → total ≤ 2 ^ 63
    → page_size < 2 ^ 64
    → i < total
    → Holds i (paginate total (i / max page_size 1 + 1) page_size)
unfolding paginate
paginate-Holds total page_size i short machine inside =
    let width = max page_size 1 in
    let page = i / width in
    let front : (page + 1 - 1) * width ≡ page * width = ap (λ n. n * width) (omega arith) in
    let (below, above) = on_page i width (omega arith) in
    let start : (page * width ≡ 0) ⊎ (width ≤ page * width) = apart page width in
    rw front (ground arith)

-- The pages tile the listing, of at most 2^63 entries: a page's window lies in the list and is no
-- longer than a page, the next page starts where it ends, the first page starts at the front, and
-- every entry of the list lies in the window of the page with its number divided by the page's length.
-- A page of no length counts as one of length one.
pub paginate-adjoins :
    (total page page_size : ℕ)
    → total ≤ 2 ^ 63
    → page_size < 2 ^ 64
    → 0 < page
    → Adjoin total
        (max page_size 1)
        (paginate total page page_size)
        (paginate total (page + 1) page_size)
      × ((paginate total 1 page_size).0 ≡ 0)
      × ((i : ℕ) → i < total → Holds i (paginate total (i / max page_size 1 + 1) page_size))
unfolding paginate
paginate-adjoins total (suc page) page_size short machine some_page =
    let width = max page_size 1 in
    let front : (suc page - 1) * width ≡ page * width = ap (λ n. n * width) (omega arith) in
    let behind : (suc page + 1 - 1) * width ≡ page * width + width =
      ap (λ n. n * width) (omega arith) ∙ grown page width in
    let start : (page * width ≡ 0) ⊎ (width ≤ page * width) = apart page width in
    (
      rw (front, behind) (ground arith),
      ground arith,
      λ i inside. paginate-Holds total page_size i short machine inside,
    )
paginate-adjoins total zero page_size short machine some_page = absurd (omega arith)
