-- ===== src/S3/Xml/Escaping.antt =====
-- Escaped text has no markup of its own, and different texts stay different.
use nimbus_store.Base.{[], ◌∷◌, ◌++◌, All, All-append, ◌≡◌, ◌≢◌, refl, ap₂, arith, ℕ}
use nimbus_store.Bytes.{Bytes}
use nimbus_store.S3.Xml.{escape_char, escape}

-- A character that neither opens nor closes a tag or an attribute.
abbrev pub IsText : ℕ → Type 0
IsText c = (c ≢ b'<') × (c ≢ b'>') × (c ≢ b'"')

escape_char-IsText : (c : ℕ) → All IsText (escape_char c)
unfolding escape_char
escape_char-IsText c = ground arith

escape-IsText : (s : Bytes) → All IsText (escape s)
unfolding escape
escape-IsText [] = tt
escape-IsText (c ∷ s) =
    All-append IsText (escape_char c) (escape s) (escape_char-IsText c) (escape-IsText s)

escape_char_injective :
    (c d : ℕ) (r t : Bytes) → escape_char c ++ r ≡ escape_char d ++ t → (c ≡ d) × (r ≡ t)
unfolding escape_char
escape_char_injective c d r t e = ground arith

escape_char-ne-nil : (c : ℕ) (r : Bytes) → escape_char c ++ r ≢ []
unfolding escape_char
escape_char-ne-nil c r e = ground arith

escape_injective : (s t : Bytes) → escape s ≡ escape t → s ≡ t
unfolding escape
escape_injective [] [] e = refl
escape_injective [] (d ∷ t) e = absurd (escape_char-ne-nil d (escape t) (cc))
escape_injective (c ∷ s) [] e = absurd (escape_char-ne-nil c (escape s) e)
escape_injective (c ∷ s) (d ∷ t) e =
    let (same, rest) = escape_char_injective c d (escape s) (escape t) e in
    ap₂ {C = Bytes} (λ (x : ℕ) (r : Bytes). x ∷ r) same (escape_injective s t rest)

-- What `Escape` writes has none of the characters "<", ">" and the double quote, and two texts
-- with the same escaped form are equal.
pub escape_lem : (s : Bytes) → All IsText (escape s) × ((t : Bytes) → escape s ≡ escape t → s ≡ t)
escape_lem s = (escape-IsText s, escape_injective s)
