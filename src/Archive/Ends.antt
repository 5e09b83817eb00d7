-- ===== src/Archive/Ends.antt =====
-- Total correctness of the decoder of backend/src/archive.rs: a postcondition of what succeeds, and no
-- failure for want of fuel. One rule for each construct.
use dbx_plugin_files.Prelude.{
  ℕ, zero, suc, ◌+◌, ◌≤◌, ◌≡◌, ◌≢◌, ◌⊎◌, subst, refl, inl, inr, Bool, true, false, List, [], ◌∷◌,
  All, arith, ◌-◌, ◌/◌, ◌%◌, length, take, drop, ltb, ltb→lt, length-append, length-take,
  Bool-cases, if◌then◌else◌, Result, ok, err, fail_if, ◌>>=◌, ◌>>◌,
}
use dbx_plugin_files.Archive.Paths.{ArchiveError}
use dbx_plugin_files.Archive.Reader.{BitReader, bits, align_to_byte, copy_bytes}
use dbx_plugin_files.Archive.Reading.{size, IsReader, taken-Taken}
use dbx_plugin_files.Archive.Streams.{bits-Gives}
use dbx_plugin_files.Archive.Huffman.{index_of}

abbrev pub is_diverged : ArchiveError → Bool
is_diverged ArchiveError.diverged = true
is_diverged _ = false

abbrev pub Ends : {A : Type 0} → (A → Type 0) → Result ArchiveError A → Type 0
Ends P (ok a) = P a
Ends P (err fault) = is_diverged fault ≡ false

pub Ends-bind :
    {A B : Type 0} (P : A → Type 0) (Q : B → Type 0) (m : Result ArchiveError A)
    (k : A → Result ArchiveError B)
    → Ends P m
    → ((a : A) → P a → Ends Q (k a))
    → Ends Q (m >>= k)
Ends-bind P Q (ok a) k h next = next a h
Ends-bind P Q (err fault) k h next = h

pub Ends-weaken :
    {A : Type 0} (P Q : A → Type 0) (m : Result ArchiveError A)
    → ((a : A) → P a → Q a)
    → Ends P m
    → Ends Q m
Ends-weaken P Q (ok a) f h = f a h
Ends-weaken P Q (err fault) f h = h

pub Ends-if :
    {A : Type 0} (P : A → Type 0) (test : Bool) (x y : Result ArchiveError A)
    → (test ≡ true → Ends P x)
    → (test ≡ false → Ends P y)
    → Ends P (if test then x else y)
Ends-if P true x y h k = h refl
Ends-if P false x y h k = k refl

not_diverged : (fault : ArchiveError) → is_diverged fault ≡ false → fault ≢ ArchiveError.diverged
not_diverged fault h e =
    let same : is_diverged ArchiveError.diverged ≡ false = subst (λ f. is_diverged f ≡ false) e h in
    cc

-- Both ways to end.
pub Ends-cases :
    {A : Type 0} (P : A → Type 0) (r : Result ArchiveError A)
    → Ends P r
    → ((fault : ArchiveError) × (r ≡ err fault) × (fault ≢ ArchiveError.diverged))
      ⊎ ((a : A) × (r ≡ ok a) × P a)
Ends-cases P (ok a) h = inr (a, refl, h)
Ends-cases P (err fault) h = inl (fault, refl, not_diverged fault h)

-- An early return of an error.
pub Ends-fail_if :
    {B : Type 0} (Q : B → Type 0) (test : Bool) (fault : ArchiveError) (k : Result ArchiveError B)
    → is_diverged fault ≡ false
    → (test ≡ false → Ends Q k)
    → Ends Q (fail_if test fault >> k)
Ends-fail_if Q true fault k h next = h
Ends-fail_if Q false fault k h next = next refl

pub Ends-index_of :
    (P : ℕ → Type 0) (array : List ℕ) (index : ℕ) → All P array → Ends P (index_of array index)
Ends-index_of P [] index h = refl
Ends-index_of P (x ∷ array) zero h = h.0
Ends-index_of P (x ∷ array) (suc index) h = Ends-index_of P array index h.1

pub Ends-index_any : (array : List ℕ) (index : ℕ) → Ends (λ x. Unit {0}) (index_of array index)
Ends-index_any [] index = refl
Ends-index_any (x ∷ array) zero = tt
Ends-index_any (x ∷ array) (suc index) = Ends-index_any array index

-- The second reader is valid and has `count` bits less at least.
abbrev pub Later : ℕ → BitReader → BitReader → Type 0
Later count reader after = IsReader after × (size after + count ≤ size reader)

pub Later-trans : (m n : ℕ) (a b c : BitReader) → Later m a b → Later n b c → Later (m + n) a c
Later-trans m n a b c h k = (k.0, omega (arith, h.1, k.1))

pub Later-weaken : (m n : ℕ) (a b : BitReader) → n ≤ m → Later m a b → Later n a b
Later-weaken m n a b le h = (h.0, omega (arith, h.1))

pub bits-Ends :
    (count : ℕ) (reader : BitReader)
    → IsReader reader
    → count ≤ 32
    → Ends (λ (x : ℕ × BitReader). Later count reader x.1) (bits count reader)
bits-Ends count reader h small = elim (Bool-cases (ltb (size reader) count)) [
  | inl short ↦ rw ((bits-Gives count reader h small).0 (ltb→lt _ _ short)) refl
  | inr enough ↦
      let (after, answer, (valid, value, total, bytes)) =
        (bits-Gives count reader h small).1 (ground arith) in
      rw answer (valid, omega (arith, total))
]

pub align_to_byte-Later :
    (reader : BitReader) → IsReader reader → Later 0 reader (align_to_byte reader)
unfolding align_to_byte
align_to_byte-Later reader h =
    let ((valid, value, total, bytes), low) =
      taken-Taken (reader.nbits % 8) reader h (omega arith) in
    (valid, omega (arith, total))

-- The bytes of a stored block stay within the guard.
abbrev pub Fits : ℕ → BitReader → List ℕ × BitReader → Type 0
Fits max_out reader x = (length x.0 ≤ max_out) × Later 0 reader x.1

pub copy_bytes-Ends :
    (count max_out : ℕ) (out : List ℕ) (reader : BitReader)
    → IsReader reader
    → Ends (Fits max_out reader) (copy_bytes count max_out out reader)
unfolding copy_bytes
copy_bytes-Ends count max_out out reader h =
    let start = reader.pos - reader.nbits / 8 in
    Ends-if (Fits max_out reader) (ltb (length reader.bytes) (start + count)) _ _ (λ over. refl)
      (λ inside.
        Ends-if (Fits max_out reader) (ltb max_out (length out + count)) _ _ (λ over. refl)
          (λ fits. (
            ground (
              arith,
              length-append out (take count (drop start reader.bytes)),
              length-take count (drop start reader.bytes),
            ),
            (
              record {
                fits = omega arith;
                short = omega arith;
                inside = ground arith;
                backed = omega arith;
                octets = h.octets;
              },
              ground (arith, h.backed),
            ),
          )))
