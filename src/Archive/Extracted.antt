-- ===== src/Archive/Extracted.antt =====
-- The extraction plan of backend/src/archive.rs: safe, within its guards, and always answered.
use dbx_plugin_files.Prelude.{
  ℕ, suc, ◌+◌, ◌-◌, ◌%◌, ◌^◌, ◌≤◌, ◌<◌, ◌≡◌, ◌≢◌, ◌⊎◌, inl, inr, refl, List, [], ◌∷◌, length, ltb,
  arith, true, not, ◌==◌, leb, Option-cases, ok, err, ◌>>=◌, All, drop, take,
}
use dbx_plugin_files.Archive.Paths.{ArchiveError}
use dbx_plugin_files.Archive.Reading.{IsByte}
use dbx_plugin_files.Archive.Confined.{IsConfined}
use Prim.Native.Nat.{bit_and}
use dbx_plugin_files.Archive.Inflate.{inflate}
use dbx_plugin_files.Archive.Bombs.{inflate-Ends}
use dbx_plugin_files.Archive.RoundTrip.{All-take, All-drop}
use dbx_plugin_files.Archive.Gzip.{
  has_prefix, byte_at, zero_position, skip_extra, skip_string, skip_crc, verified, crc32, from_le32,
  gunzip, prepare,
}
use dbx_plugin_files.Archive.Blocks.{Limits, RawEntry}
use dbx_plugin_files.Archive.Tar.{parse_tar}
use dbx_plugin_files.Archive.Listing.{ExtractEntry, saturating, plan_from, extract_entries}
use dbx_plugin_files.Archive.Ends.{Ends, Ends-bind, Ends-weaken, Ends-if, Ends-fail_if, Ends-cases}
use dbx_plugin_files.Archive.Tables.{Any}
use dbx_plugin_files.Archive.Walked.{IsSound, AreEntries, parse_tar-Ends}

-- The bytes that a plan writes.
unfoldable pub written_bytes : List ExtractEntry → ℕ
written_bytes [] = 0
written_bytes (entry ∷ plan) = length entry.contents + written_bytes plan

abbrev pub IsPlanned : ExtractEntry → Type 0
IsPlanned entry = IsConfined entry.target

-- A plan for at most so many entries and bytes.
pub record IsSafePlan (entries bytes : ℕ) (plan : List ExtractEntry) : Type 0 where
  pub confined : All IsPlanned plan
  pub few : length plan ≤ entries
  pub small : written_bytes plan ≤ bytes

plan_from-Ends :
    (max_bytes total : ℕ) (entries : List RawEntry)
    → max_bytes + 1 < 2 ^ 64
    → All IsSound entries
    → total ≤ max_bytes
    → Ends (IsSafePlan (length entries) (max_bytes - total)) (plan_from max_bytes total entries)
unfolding plan_from written_bytes
plan_from-Ends max_bytes total [] below h fits = record {
  confined = tt;
  few = omega arith;
  small = omega arith;
}
plan_from-Ends max_bytes total (entry ∷ entries) below h fits =
    let total' = saturating (total + entry.size) in
    let Q = IsSafePlan (suc (length entries)) (max_bytes - total) in
    Ends-if Q entry.is_link _ _ (λ link. refl)
      (λ no_link.
        Ends-if Q entry.is_dir _ _
          (λ dir.
            Ends-weaken (IsSafePlan (length entries) (max_bytes - total)) Q
              (plan_from max_bytes total entries)
              (λ plan k. record {
                confined = k.confined;
                few = omega (arith, k.few);
                small = k.small;
              })
              (plan_from-Ends max_bytes total entries below h.1 fits))
          (λ file.
            Ends-if Q (ltb max_bytes total') _ _ (λ over. refl)
              (λ room.
                Ends-bind (IsSafePlan (length entries) (max_bytes - total')) Q
                  (plan_from max_bytes total' entries) _
                  (plan_from-Ends max_bytes total' entries below h.1 (ground arith))
                  (λ plan k. record {
                    confined = (h.0.confined, k.confined);
                    few = omega (arith, k.few);
                    small = ground (arith, k.small, h.0.bounded);
                  }))))

planned-Ends :
    (bytes : List ℕ) (limits : Limits)
    → limits.max_bytes + 1 < 2 ^ 64
    → Ends
        (IsSafePlan limits.max_entries limits.max_bytes)
        (parse_tar bytes limits true >>= plan_from limits.max_bytes 0)
planned-Ends bytes limits below =
    Ends-bind (AreEntries limits) (IsSafePlan limits.max_entries limits.max_bytes)
      (parse_tar bytes limits true) (plan_from limits.max_bytes 0)
      (parse_tar-Ends bytes limits true)
      (λ entries h.
        Ends-weaken (IsSafePlan (length entries) (limits.max_bytes - 0))
          (IsSafePlan limits.max_entries limits.max_bytes) (plan_from limits.max_bytes 0 entries)
          (λ plan k. record {
            confined = k.confined;
            few = omega (arith, k.few, h.1);
            small = omega (arith, k.small);
          })
          (plan_from-Ends limits.max_bytes 0 entries below h.0 (omega arith)))

skip_extra-Ends : (flags : ℕ) (raw : List ℕ) (pos : ℕ) → Ends Any (skip_extra flags raw pos)
unfolding skip_extra
skip_extra-Ends flags raw pos =
    Ends-if Any (bit_and flags 0x04 == 0) _ _ (λ h. tt)
      (λ h. Ends-if Any (ltb (length raw) (pos + 2)) _ _ (λ k. refl) (λ k. tt))

skip_string-Ends :
    (flag flags : ℕ) (raw : List ℕ) (pos : ℕ) → Ends Any (skip_string flag flags raw pos)
unfolding skip_string
skip_string-Ends flag flags raw pos =
    Ends-if Any (bit_and flags flag == 0) _ _ (λ h. tt)
      (λ h.
        Ends-if Any (ltb (length raw) pos) _ _ (λ k. refl)
          (λ k. elim (Option-cases (zero_position (drop pos raw))) [
            | inl missing ↦ rw (missing, Ends) refl
            | inr (at, found) ↦ rw (found, Ends) tt
          ]))

verified-Ends : (trailer out : List ℕ) → Ends Any (verified trailer out)
unfolding verified
verified-Ends trailer out =
    Ends-fail_if Any (not (crc32 out == from_le32 (take 4 trailer))) _ _ refl (λ h.
      Ends-fail_if Any (not (length out % 2 ^ 32 == from_le32 (drop 4 trailer))) _ _ refl (λ k. tt))

gunzip-Ends : (raw : List ℕ) (max_out : ℕ) → All IsByte raw → Ends Any (gunzip raw max_out)
unfolding gunzip
gunzip-Ends raw max_out octets =
    let flags = byte_at 3 raw in
    Ends-fail_if Any (ltb (length raw) 18) _ _ refl (λ h1.
      Ends-fail_if Any (not (byte_at 2 raw == 8)) _ _ refl (λ h2.
        Ends-bind Any Any (skip_extra flags raw 10) _ (skip_extra-Ends flags raw 10) (λ pos1 k1.
          Ends-bind Any Any (skip_string 0x08 flags raw pos1) _
            (skip_string-Ends 0x08 flags raw pos1)
            (λ pos2 k2.
              Ends-bind Any Any (skip_string 0x10 flags raw pos2) _
                (skip_string-Ends 0x10 flags raw pos2)
                (λ pos3 k3.
                  let pos = skip_crc flags pos3 in
                  let body = take (length raw - 8 - pos) (drop pos raw) in
                  Ends-fail_if Any (leb (length raw) (pos + 8)) _ _ refl (λ h3.
                    Ends-bind (λ (out : List ℕ). length out ≤ max_out) Any (inflate body max_out) _
                      (inflate-Ends body max_out
                        (All-take (length raw - 8 - pos) (drop pos raw) (All-drop pos raw octets)))
                      (λ out k. verified-Ends (drop (length raw - 8) raw) out)))))))

prepare-Ends : (raw : List ℕ) (max_bytes : ℕ) → All IsByte raw → Ends Any (prepare raw max_bytes)
unfolding prepare
prepare-Ends raw max_bytes octets =
    Ends-if Any (has_prefix b'P' b'K' raw) _ _ (λ zip. refl)
      (λ h.
        Ends-if Any (has_prefix 0x1f 0x8b raw) _ _ (λ gzip. gunzip-Ends raw max_bytes octets)
          (λ plain. tt))

-- Extraction ends on every byte string, with a plan, an error or a panic, if the byte guard and one are
-- less than 2^64. A plan's targets are paths of plain components with no leading slash, there are no more
-- of them than the entry guard allows, and no more bytes are written than the byte guard allows, whatever
-- names, sizes and types the archive declares.
pub extract_entries-IsSafePlan :
    (raw : List ℕ) (limits : Limits)
    → All IsByte raw
    → limits.max_bytes + 1 < 2 ^ 64
    → ((fault : ArchiveError) × (extract_entries raw limits ≡ err fault)
        × (fault ≢ ArchiveError.diverged))
      ⊎ ((plan : List ExtractEntry) × (extract_entries raw limits ≡ ok plan)
          × IsSafePlan limits.max_entries limits.max_bytes plan)
unfolding extract_entries
extract_entries-IsSafePlan raw limits octets below =
    let Q = IsSafePlan limits.max_entries limits.max_bytes in
    Ends-cases Q (extract_entries raw limits) (
      Ends-bind Any Q (prepare raw limits.max_bytes)
        (λ bytes. parse_tar bytes limits true >>= plan_from limits.max_bytes 0)
        (prepare-Ends raw limits.max_bytes octets) (λ bytes k. planned-Ends bytes limits below))
