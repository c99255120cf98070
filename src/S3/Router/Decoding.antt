-- ===== src/S3/Router/Decoding.antt =====
-- Percent-encoded paths are read back.
use nimbus_store.Base.{
  ℕ, ◌+◌, ◌*◌, ◌-◌, ◌/◌, ◌%◌, ◌<◌, [], ◌∷◌, ◌++◌, Bool, true, false, Option, none, some, ◌≡◌, ◌≢◌,
  refl, ap, ap₂, sym, ◌∙◌, arith, length, drop, All-append, append_assoc, take-append, ltb,
  if◌then◌else◌, All, Bool-cases, ◌⊎◌, inl, inr,
}
use native.Mathlib.Nat.{suc-add}
use nimbus_store.Bytes.{Bytes, IsBytes, codes}
use nimbus_store.S3.Types.{S3Request}
use nimbus_store.S3.Router.{find_char, url_decode, split_query, split_path, parse_uri}

-- The digit of a number below 16.
abbrev pub hex_digit : ℕ → ℕ
hex_digit d = if ltb d 10 then b'0' + d else b'A' + (d - 10)

-- What `sscanf` with "%x" does on two digits.
pub record ReadsHex (scan_hex : Bytes → Option ℕ) : Type 0 where
  pub two_digits :
      (h l : ℕ) → h < 16 → l < 16 → scan_hex (hex_digit h ∷ hex_digit l ∷ []) ≡ some (h * 16 + l)

-- Percent-encoding of all characters but those that `plain` allows.
unfoldable pub url_encode : (ℕ → Bool) → Bytes → Bytes
url_encode plain [] = []
url_encode plain (c ∷ s) =
    if plain c
    then c ∷ url_encode plain s
    else b'%' ∷ hex_digit (c / 16) ∷ hex_digit (c % 16) ∷ url_encode plain s

-- No character that is kept as it is has a meaning in an encoded path.
pub record IsPlain (plain : ℕ → Bool) : Type 0 where
  pub percent : plain b'%' ≡ false
  pub plus : plain b'+' ≡ false
  pub slash : plain b'/' ≡ false
  pub question : plain b'?' ≡ false

-- The first position of a character is behind a text without it.
pub find_char-append :
    (c : ℕ) (xs ys : Bytes) → All (λ x. x ≢ c) xs → find_char c (xs ++ c ∷ ys) ≡ some (length xs)
unfolding find_char
find_char-append c [] ys h = ground arith
find_char-append c (x ∷ xs) ys h = ground (arith, find_char-append c xs ys)

pub find_char-none : (c : ℕ) (xs : Bytes) → All (λ x. x ≢ c) xs → find_char c xs ≡ none
unfolding find_char
find_char-none c [] h = refl
find_char-none c (x ∷ xs) h = ground (arith, find_char-none c xs)

pub drop-append_one : (xs : Bytes) (c : ℕ) (ys : Bytes) → drop (length xs + 1) (xs ++ c ∷ ys) ≡ ys
drop-append_one [] c ys = refl
drop-append_one (x ∷ xs) c ys = rw suc-add (drop-append_one xs c ys)

hex_digit_range : (d k : ℕ) → d < 16 → (k ≡ b'/') ⊎ (k ≡ b'?') → hex_digit d ≢ k
hex_digit_range d k h e = ground arith

split_query_lem :
    (path query old : Bytes)
    → All (λ x. x ≢ b'?') path
    → split_query (path ++ b'?' ∷ query) old ≡ (path, query)
unfolding split_query
split_query_lem path query old h =
    rw (find_char-append b'?' path query h, split_query)
      (ap₂ {C = Bytes × Bytes} (λ (x y : Bytes). (x, y)) (take-append path (b'?' ∷ query))
        (drop-append_one path b'?' query))

split_path_lem :
    (scan_hex : Bytes → Option ℕ) (bucket key : Bytes)
    → All (λ x. x ≢ b'/') bucket
    → split_path scan_hex (bucket ++ b'/' ∷ key)
      ≡ (url_decode scan_hex bucket, url_decode scan_hex key)
unfolding split_path
split_path_lem scan_hex bucket key h =
    rw (find_char-append b'/' bucket key h, split_path)
      (ap₂ {C = Bytes × Bytes} (λ (x y : Bytes). (url_decode scan_hex x, url_decode scan_hex y))
        (take-append bucket (b'/' ∷ key)) (drop-append_one bucket b'/' key))

module _ (plain : ℕ → Bool) (p : IsPlain plain) where
  plain_ne : (c k : ℕ) → plain k ≡ false → plain c ≡ true → c ≢ k
  plain_ne c k no_k yes_c e = cc

  -- An encoded text has no character that divides a path.
  url_encode_without :
      (k : ℕ) (s : Bytes)
      → (k ≡ b'/') ⊎ (k ≡ b'?')
      → plain k ≡ false
      → IsBytes s
      → All (λ x. x ≢ k) (url_encode plain s)
  unfolding url_encode
  url_encode_without k [] e no_k h = tt
  url_encode_without k (c ∷ s) e no_k h =
      let rest = url_encode_without k s e no_k h.1 in
      elim (Bool-cases (plain c)) [
        | inl kept ↦ rw kept (plain_ne c k no_k kept, rest)
        | inr other ↦ rw other (
          ground arith,
          (
            hex_digit_range (c / 16) k (omega arith) e,
            (hex_digit_range (c % 16) k (omega arith) e, rest),
          ),
        )
      ]

module _ (scan_hex : Bytes → Option ℕ) (reads : ReadsHex scan_hex) (plain : ℕ → Bool)
    (p : IsPlain plain) where
  decode_hex :
      (h l : ℕ) (s : Bytes)
      → h < 16
      → l < 16
      → url_decode scan_hex (b'%' ∷ hex_digit h ∷ hex_digit l ∷ s)
        ≡ (h * 16 + l) ∷ url_decode scan_hex s
  unfolding url_decode
  decode_hex h l s lt_h lt_l =
      rw (reads.two_digits h l lt_h lt_l)
        (ap {B = Bytes} (λ (x : ℕ). x ∷ url_decode scan_hex s) (omega arith))

  decode_plain :
      (c : ℕ) (s : Bytes)
      → c ≢ b'%'
      → c ≢ b'+'
      → url_decode scan_hex (c ∷ s) ≡ c ∷ url_decode scan_hex s
  unfolding url_decode
  decode_plain c [] h k = ground arith
  decode_plain c (x ∷ []) h k = ground arith
  decode_plain c (x ∷ y ∷ s) h k = ground arith

  -- `UrlDecode` gives back every string of bytes from its percent-encoding, whichever characters
  -- other than "%", "+", "/" and "?" the encoder leaves as they are, if `sscanf` reads the number
  -- of two hexadecimal digits.
  pub url_decode-url_encode : (s : Bytes) → IsBytes s → url_decode scan_hex (url_encode plain s) ≡ s
  unfolding url_encode
  url_decode-url_encode [] h = unfold url_decode in refl
  url_decode-url_encode (c ∷ s) h = elim (Bool-cases (plain c)) [
    | inl kept ↦ rw kept (
        decode_plain c (url_encode plain s) (plain_ne plain p c b'%' p.percent kept)
          (plain_ne plain p c b'+' p.plus kept)
        ∙ ap (◌∷◌ c) (url_decode-url_encode s h.1))
    | inr other ↦ rw other (
        decode_hex (c / 16) (c % 16) (url_encode plain s) (omega arith) (omega arith)
        ∙ ap₂ {C = Bytes} (λ (x : ℕ) (t : Bytes). x ∷ t) (omega arith)
            (url_decode-url_encode s h.1))
  ]

  -- A request for "/bucket/key?query", with the bucket and the key percent-encoded, is parsed into
  -- that bucket, that key and that query string, whatever bytes the bucket and the key have.
  pub parse_uri_lem :
      (req : S3Request) (bucket key query : Bytes)
      → IsBytes bucket
      → IsBytes key
      → req.uri
        ≡ codes "/"
          ++ (url_encode plain bucket
              ++ (codes "/" ++ (url_encode plain key ++ (codes "?" ++ query))))
      → parse_uri scan_hex req
        ≡ record req { query_string = query; bucket_name = bucket; object_key = key }
  unfolding parse_uri
  parse_uri_lem req bucket key query hb hk e =
      let a = url_encode plain bucket in
      let k = url_encode plain key in
      let path : Bytes = b'/' ∷ (a ++ b'/' ∷ k) in
      let no_question : All (λ x. x ≢ b'?') path = (
        omega arith,
        All-append (λ x. x ≢ b'?') a (b'/' ∷ k)
            (url_encode_without plain p b'?' bucket (inr refl) p.question hb)
            (omega arith, url_encode_without plain p b'?' key (inr refl) p.question hk),
      ) in
      let uri : req.uri ≡ path ++ b'?' ∷ query =
        e ∙ ap (◌∷◌ b'/') (sym (append_assoc a (b'/' ∷ k) (b'?' ∷ query))) in
      let query_split =
        ap (λ (u : Bytes). split_query u req.query_string) uri
        ∙ split_query_lem path query req.query_string no_question in
      let path_split =
        split_path_lem scan_hex a k
          (url_encode_without plain p b'/' bucket (inl refl) p.slash hb) in
      rw query_split
        (rw (path_split, url_decode-url_encode bucket hb, url_decode-url_encode key hk) refl)
