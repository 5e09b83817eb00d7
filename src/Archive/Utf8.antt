-- ===== src/Archive/Utf8.antt =====
-- `String::from_utf8_lossy` of the Rust standard library, which backend/src/archive.rs applies to the
-- fields of a tar header: bytes to code points, where each ill-formed part is one U+FFFD.
use dbx_plugin_files.Prelude.{
  ℕ, zero, suc, ◌+◌, ◌-◌, ◌*◌, ◌%◌, Bool, not, ◌&&◌, ◌==◌, List, [], ◌∷◌, ltb, leb, if◌then◌else◌,
  get_elem?, none, some,
}
use dbx_plugin_files.Prelude.Text.{Text}

abbrev replacement : ℕ
replacement = 0xfffd

abbrev within : ℕ → ℕ → ℕ → Bool
within low high b = leb low b && leb b high

-- A byte of the rest; 0 behind the end.
abbrev safe_get : List ℕ → ℕ → ℕ
safe_get bytes index = elim (get_elem? bytes index) [ none ↦ 0 | some b ↦ b ]

abbrev is_continuation : ℕ → Bool
is_continuation b = within 0x80 0xbf b

-- The second byte of a sequence of three, and of four.
abbrev second_of_three : ℕ → ℕ → Bool
second_of_three first second =
    if first == 0xe0
    then within 0xa0 0xbf second
    else if first == 0xed
    then within 0x80 0x9f second
    else within 0x80 0xbf second

abbrev second_of_four : ℕ → ℕ → Bool
second_of_four first second =
    if first == 0xf0
    then within 0x90 0xbf second
    else if first == 0xf4
    then within 0x80 0x8f second
    else within 0x80 0xbf second

-- The character at the front and how many bytes it takes.
unfoldable pub char_at : ℕ → ℕ → ℕ → ℕ → ℕ × ℕ
char_at b c d e =
    if ltb b 0x80
    then (b, 1)
    else if within 0xc2 0xdf b
    then (if is_continuation c then (b % 32 * 64 + c % 64, 2) else (replacement, 1))
    else if within 0xe0 0xef b
    then (if not (second_of_three b c)
        then (replacement, 1)
        else if not (is_continuation d)
        then (replacement, 2)
        else (b % 16 * 4096 + c % 64 * 64 + d % 64, 3))
    else if within 0xf0 0xf4 b
    then (if not (second_of_four b c)
        then (replacement, 1)
        else if not (is_continuation d)
        then (replacement, 2)
        else if not (is_continuation e)
        then (replacement, 3)
        else (b % 8 * 262144 + c % 64 * 4096 + d % 64 * 64 + e % 64, 4))
    else (replacement, 1)

-- The decoder; the number is how many bytes belong to the last character.
unfoldable pub decode_lossy : ℕ → List ℕ → Text
unfolding char_at
decode_lossy skip [] = []
decode_lossy (suc skip) (b ∷ bytes) = decode_lossy skip bytes
decode_lossy zero (b ∷ bytes) =
    let (c, width) = char_at b (safe_get bytes 0) (safe_get bytes 1) (safe_get bytes 2) in
    c ∷ decode_lossy (width - 1) bytes

unfoldable pub from_utf8_lossy : List ℕ → Text
unfolding decode_lossy
from_utf8_lossy bytes = decode_lossy 0 bytes
