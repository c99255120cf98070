-- ===== src/S3/Encoding/Reads.antt =====
-- What was appended is what is read back, whatever stands before and after it.
use nimbus_store.Base.{
  ℕ, ◌+◌, ◌%◌, ◌^◌, ◌<◌, ◌≤◌, ◌++◌, some, length, take, drop, ◌≡◌, ap, sym, ◌∙◌, arith, take-append,
  drop-append, length-append, drop-drop, length-drop, append_assoc, le→ltb,
}
use nimbus_store.Bytes.{Bytes}
use nimbus_store.Bytes.Words.{le_bytes, length-le_bytes, of_le-le_bytes}
use nimbus_store.S3.Encoding.{get_u32, get_u64, get_string, get_chars}

-- The bytes from `pos` on are `ahead`.
abbrev pub At : Bytes → ℕ → Bytes → Type 0
At bytes pos ahead = drop pos bytes ≡ ahead

module _ (bytes : Bytes) (pos : ℕ) where
  pub At-append : (xs rest : Bytes) → At bytes pos (xs ++ rest) → At bytes (pos + length xs) rest
  At-append xs rest h =
      sym (drop-drop pos (length xs) bytes) ∙ ap (drop (length xs)) h ∙ drop-append xs rest

  take-At : (xs rest : Bytes) → At bytes pos (xs ++ rest) → take (length xs) (drop pos bytes) ≡ xs
  take-At xs rest h = ap (take (length xs)) h ∙ take-append xs rest

  pub fits :
      (xs rest : Bytes) → 0 < length xs → At bytes pos (xs ++ rest) → pos + length xs ≤ length bytes
  fits xs rest h at = omega (arith, ap length at, length-drop pos bytes, length-append xs rest)

module _ (bytes : Bytes) (pos v : ℕ) (rest : Bytes) where
  pub get_u32-At :
      At bytes pos (le_bytes 4 (v % 2 ^ 32) ++ rest)
      → get_u32 bytes pos ≡ (some (v % 2 ^ 32), pos + 4)
  unfolding get_u32
  get_u32-At h =
      let word = le_bytes 4 (v % 2 ^ 32) in
      let size : length word ≡ 4 = length-le_bytes 4 (v % 2 ^ 32) in
      let chars : take 4 (drop pos bytes) ≡ word =
        ap (λ (n : ℕ). take n (drop pos bytes)) (sym size) ∙ take-At bytes pos word rest h in
      let inside = fits bytes pos word rest (omega arith) h in
      rw (le→ltb (length bytes) (pos + 4) (omega arith), chars)
        (rw (of_le-le_bytes 4 (v % 2 ^ 32) (omega arith)))

  pub get_u64-At :
      At bytes pos (le_bytes 8 (v % 2 ^ 64) ++ rest)
      → get_u64 bytes pos ≡ (some (v % 2 ^ 64), pos + 8)
  unfolding get_u64
  get_u64-At h =
      let word = le_bytes 8 (v % 2 ^ 64) in
      let size : length word ≡ 8 = length-le_bytes 8 (v % 2 ^ 64) in
      let chars : take 8 (drop pos bytes) ≡ word =
        ap (λ (n : ℕ). take n (drop pos bytes)) (sym size) ∙ take-At bytes pos word rest h in
      let inside = fits bytes pos word rest (omega arith) h in
      rw (le→ltb (length bytes) (pos + 8) (omega arith), chars)
        (rw (of_le-le_bytes 8 (v % 2 ^ 64) (omega arith)))

-- The encoding of a string, without the buffer before it.
abbrev pub string_bytes : Bytes → Bytes
string_bytes s = le_bytes 4 (length s % 2 ^ 32) ++ s

pub get_string-At :
    (bytes : Bytes) (pos : ℕ) (s rest : Bytes)
    → length s < 2 ^ 32
    → At bytes pos (string_bytes s ++ rest)
    → get_string bytes pos ≡ (some s, pos + length (string_bytes s))
unfolding get_string
get_string-At bytes pos s rest short h =
    let word = le_bytes 4 (length s % 2 ^ 32) in
    let size : length word ≡ 4 = length-le_bytes 4 (length s % 2 ^ 32) in
    let h' : At bytes pos (word ++ (s ++ rest)) = h ∙ append_assoc word s rest in
    let ahead : At bytes (pos + 4) (s ++ rest) =
      ap (λ (n : ℕ). drop (pos + n) bytes) (sym size) ∙ At-append bytes pos word (s ++ rest) h' in
    let len : length s % 2 ^ 32 ≡ length s = omega arith in
    let inside : pos + 4 + length s ≤ length bytes = omega (
      arith,
      fits bytes pos word (s ++ rest) (omega arith) h',
      ap length ahead,
      length-drop (pos + 4) bytes,
      length-append s rest,
    ) in
    rw (get_u32-At bytes pos (length s) (s ++ rest) h', get_chars)
      (rw
        (
          len,
          le→ltb (length bytes) (pos + 4 + length s) inside,
          take-At bytes (pos + 4) s rest ahead,
        )
        (ground (arith, length-append word s)))
