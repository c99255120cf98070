-- ===== src/S3/Meta/Fields.antt =====
-- Reads of the fields of a record.
use nimbus_store.Base.{ℕ, ◌+◌, ◌%◌, ◌^◌, ◌<◌, some, length, ltb, ◌≡◌, refl, ap, sym, ◌∙◌, arith}
use nimbus_store.Bytes.{Bytes}
use nimbus_store.Bytes.Words.{le_bytes, length-le_bytes}
use nimbus_store.S3.Encoding.{get_u32, get_u64, get_string}
use nimbus_store.S3.Encoding.Reads.{string_bytes, get_u32-At, get_u64-At, get_string-At}
use nimbus_store.S3.Meta.{version}
use nimbus_store.S3.Meta.Decoding.{field, Reads, Reads-field, Reads-check}

module _ {ℓ} {M : Type ℓ} where
  pub Reads-version : Reads {M = M} version (le_bytes 4 1) (λ m. m)
  unfolding version
  Reads-version =
      Reads-check get_u32 (λ ver. ltb ver 2) 1 (le_bytes 4 1) refl
        λ bytes pos rest h.
          get_u32-At bytes pos 1 rest h
          ∙ ap (λ (n : ℕ). (some 1, pos + n)) (sym (length-le_bytes 4 1))

  pub Reads-string :
      (write : Bytes → M → M) (s : Bytes)
      → length s < 2 ^ 32
      → Reads (field get_string write) (string_bytes s) (write s)
  Reads-string write s short =
      Reads-field get_string write s (string_bytes s)
        λ bytes pos rest h. get_string-At bytes pos s rest short h

  pub Reads-u64 :
      (write : ℕ → M → M) (v : ℕ)
      → v < 2 ^ 64
      → Reads (field get_u64 write) (le_bytes 8 (v % 2 ^ 64)) (write v)
  Reads-u64 write v small =
      let word : v % 2 ^ 64 ≡ v = omega arith in
      Reads-field get_u64 write v (le_bytes 8 (v % 2 ^ 64)) λ bytes pos rest h.
        get_u64-At bytes pos v rest h ∙ ground (arith, word, length-le_bytes 8 (v % 2 ^ 64))
