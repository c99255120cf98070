-- ===== src/S3/Meta/Decoding.antt =====
-- Chains of reads that stop at the first failure, as `Get...(data, pos, field) && ...` do. The
-- result is the truth value, the object with the fields written so far, and the position.
use nimbus_store.Base.{
  ℕ, ◌+◌, ◌++◌, Bool, true, false, Option, none, some, length, ◌≡◌, refl, ap, ◌∙◌, arith,
  append_assoc, length-append,
}
use nimbus_store.Bytes.{Bytes}
use nimbus_store.S3.Encoding.Reads.{At, At-append}

abbrev pub Decoder {ℓ} : Type ℓ → Type ℓ
Decoder M = Bytes → M → ℕ → Bool × M × ℕ

module _ {ℓ} {M : Type ℓ} where
  abbrev continue : Decoder M → Bytes → Bool × M × ℕ → Bool × M × ℕ
  continue d bytes (true, m, pos) = d bytes m pos
  continue d bytes (false, m, pos) = (false, m, pos)

  infixr 20 ◌and◌
  unfoldable pub ◌and◌ : Decoder M → Decoder M → Decoder M
  ◌and◌ d e bytes m pos = continue e bytes (d bytes m pos)

module _ {ℓ} {M : Type ℓ} {A : Type 0} where
  abbrev assign : (A → M → M) → M → Option A × ℕ → Bool × M × ℕ
  assign write m (none, pos) = (false, m, pos)
  assign write m (some a, pos) = (true, write a m, pos)

  -- `Get...(data, pos, field)`
  unfoldable pub field : (Bytes → ℕ → Option A × ℕ) → (A → M → M) → Decoder M
  field get write bytes m pos = assign write m (get bytes pos)

  abbrev test : (A → Bool) → M → Option A × ℕ → Bool × M × ℕ
  test p m (none, pos) = (false, m, pos)
  test p m (some a, pos) = (p a, m, pos)

  -- a value that is read and only tested
  unfoldable pub check : (Bytes → ℕ → Option A × ℕ) → (A → Bool) → Decoder M
  check get p bytes m pos = test p m (get bytes pos)

-- `d` reads `enc` wherever it stands and has the effect `write`.
pub record Reads {ℓ} {M : Type ℓ} (d : Decoder M) (enc : Bytes) (write : M → M) : Type ℓ where
  pub at :
      (bytes : Bytes) (m : M) (pos : ℕ) (rest : Bytes)
      → At bytes pos (enc ++ rest)
      → d bytes m pos ≡ (true, write m, pos + length enc)

module _ {ℓ} {M : Type ℓ} where
  pub Reads-and :
      {d e : Decoder M} {xs ys : Bytes} {v w : M → M}
      → Reads d xs v
      → Reads e ys w
      → Reads (d and e) (xs ++ ys) (λ m. w (v m))
  unfolding ◌and◌
  Reads-and {d} {e} {xs} {ys} {v} {w} r s = record {
    at = λ bytes m pos rest h.
        let h' : At bytes pos (xs ++ (ys ++ rest)) = h ∙ append_assoc xs ys rest in
        rw (r.at bytes m pos (ys ++ rest) h') (
          s.at bytes (v m) (pos + length xs) rest (At-append bytes pos xs (ys ++ rest) h')
          ∙ ap (λ (n : ℕ). (true, w (v m), n)) (omega (arith, length-append xs ys)));
  }

  pub Reads-field :
      {A : Type 0} (get : Bytes → ℕ → Option A × ℕ) (write : A → M → M) (a : A) (enc : Bytes)
      → ((bytes : Bytes) (pos : ℕ) (rest : Bytes)
          → At bytes pos (enc ++ rest)
          → get bytes pos ≡ (some a, pos + length enc))
      → Reads (field get write) enc (write a)
  unfolding field
  Reads-field get write a enc h = record {
    at = λ bytes m pos rest k. ap (assign write m) (h bytes pos rest k);
  }

  pub Reads-check :
      {A : Type 0} (get : Bytes → ℕ → Option A × ℕ) (p : A → Bool) (a : A) (enc : Bytes)
      → p a ≡ true
      → ((bytes : Bytes) (pos : ℕ) (rest : Bytes)
          → At bytes pos (enc ++ rest)
          → get bytes pos ≡ (some a, pos + length enc))
      → Reads {M = M} (check get p) enc (λ m. m)
  unfolding check
  Reads-check get p a enc yes_a h = record {
    at = λ bytes m pos rest k. ap (test p m) (h bytes pos rest k) ∙ rw yes_a refl;
  }
