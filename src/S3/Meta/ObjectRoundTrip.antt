-- ===== src/S3/Meta/ObjectRoundTrip.antt =====
-- `ObjectMeta::Decode` restores what `ObjectMeta::Encode` wrote, the user's metadata included.
use nimbus_store.Base.{
  ℕ, suc, ◌+◌, ◌%◌, ◌^◌, ◌<◌, [], ◌∷◌, ◌++◌, Bool, true, false, Ordering, length, drop, All, ◌≡◌,
  ap, ap₂, sym, ◌∙◌, arith, append_assoc, append-nil, length-append,
}
use nimbus_store.Bytes.{Bytes, cmp}
use nimbus_store.Bytes.Words.{le_bytes, length-le_bytes}
use nimbus_store.OrderedMap.{Map, insert, Above, Sorted}
use nimbus_store.OrderedMap.Laws.{insert_last}
use nimbus_store.S3.Encoding.{put_u64, put_string}
use nimbus_store.S3.Encoding.Reads.{At, At-append, string_bytes, get_u32-At, get_string-At}
use nimbus_store.S3.Meta.{
  ObjectMeta, encode_object, decode_object, put_entries, read_entry, read_entries,
  read_user_metadata,
}
use nimbus_store.S3.Meta.Decoding.{Reads, Reads-and}
use nimbus_store.S3.Meta.Fields.{Reads-version, Reads-string, Reads-u64}

pub record ObjectFits (m : ObjectMeta) : Type 0 where
  pub bucket : length m.bucket < 2 ^ 32
  pub key : length m.key < 2 ^ 32
  pub size : m.size < 2 ^ 64
  pub etag : length m.etag < 2 ^ 32
  pub content_type : length m.content_type < 2 ^ 32
  pub last_modified : m.last_modified < 2 ^ 64
  pub storage_class : length m.storage_class < 2 ^ 32
  pub data_path : length m.data_path < 2 ^ 32
  pub entries : length m.user_metadata < 2 ^ 32
  pub texts : All (λ e. (length e.0 < 2 ^ 32) × (length e.1 < 2 ^ 32)) m.user_metadata
  pub sorted : Sorted m.user_metadata

entry_bytes : Map → Bytes
entry_bytes [] = []
entry_bytes ((k, v) ∷ m) = string_bytes k ++ (string_bytes v ++ entry_bytes m)

put_entries-eq : (buf : Bytes) (m : Map) → put_entries buf m ≡ buf ++ entry_bytes m
unfolding put_entries entry_bytes put_string
put_entries-eq buf [] = sym (append-nil buf)
put_entries-eq buf ((k, v) ∷ m) =
    put_entries-eq (put_string (put_string buf k) v) m ∙ simp append_assoc

Reads-entry :
    (k v : Bytes)
    → length k < 2 ^ 32
    → length v < 2 ^ 32
    → Reads read_entry
        (string_bytes k ++ string_bytes v)
        (λ m. record m { user_metadata = insert k v m.user_metadata })
unfolding read_entry
Reads-entry k v short_k short_v = record {
  at = λ bytes m pos rest h.
      let h' = h ∙ append_assoc (string_bytes k) (string_bytes v) rest in
      let ahead = At-append bytes pos (string_bytes k) (string_bytes v ++ rest) h' in
      rw (get_string-At bytes pos k (string_bytes v ++ rest) short_k h') (
        rw (get_string-At bytes (pos + length (string_bytes k)) v rest short_v ahead) (
          ap (λ (n : ℕ). (true, record m { user_metadata = insert k v m.user_metadata }, n))
            (omega (arith, length-append (string_bytes k) (string_bytes v)))));
}

-- Every key of the one comes before every key of the other.
abbrev Before : Map → Map → Type 0
Before m n = All (λ e. All (λ f. cmp e.0 f.0 ≡ Ordering.lt) n) m

Before-head :
    (m n : Map) (k v : Bytes) → Before m ((k, v) ∷ n) → All (λ e. cmp e.0 k ≡ Ordering.lt) m
Before-head [] n k v b = tt
Before-head (e ∷ m) n k v b = (b.0.0, Before-head m n k v b.1)

Before-next :
    (m n : Map) (k v : Bytes) → Before m ((k, v) ∷ n) → Above k n → Before (m ++ (k, v) ∷ []) n
Before-next [] n k v b a = (a, tt)
Before-next (e ∷ m) n k v b a = (b.0.1, Before-next m n k v b.1 a)

read_entries-step :
    (n : ℕ) (bytes : Bytes) (m : ObjectMeta) (pos : ℕ) {m' : ObjectMeta} {pos' : ℕ}
    → read_entry bytes m pos ≡ (true, m', pos')
    → read_entries (suc n) bytes m pos ≡ read_entries n bytes m' pos'
unfolding read_entries
read_entries-step n bytes m pos e =
    ap {B = Bool × ObjectMeta × ℕ}
      (λ (t : Bool × ObjectMeta × ℕ). elim t.0 [
        | true ↦ read_entries n bytes t.1 t.2
        | false ↦ (false, t.1, t.2)
      ])
      e

Reads-entries :
    (n : Map)
    → All (λ e. (length e.0 < 2 ^ 32) × (length e.1 < 2 ^ 32)) n
    → Sorted n
    → (bytes : Bytes) (m : ObjectMeta) (pos : ℕ) (rest : Bytes) → Before m.user_metadata n
    → At bytes pos (entry_bytes n ++ rest)
    → read_entries (length n) bytes m pos
      ≡ (true, record m { user_metadata = m.user_metadata ++ n }, pos + length (entry_bytes n))
unfolding read_entries entry_bytes
Reads-entries [] short s bytes m pos rest b h =
    ap₂ (λ (u : Map) (n : ℕ). (true, record m { user_metadata = u }, n))
      (sym (append-nil m.user_metadata)) (omega arith)
Reads-entries ((k, v) ∷ n) short s bytes m pos rest b h =
    let u = m.user_metadata in
    let enc = string_bytes k ++ string_bytes v in
    let h' : At bytes pos (enc ++ (entry_bytes n ++ rest)) = h ∙ simp append_assoc in
    let ahead = At-append bytes pos enc (entry_bytes n ++ rest) h' in
    let last : insert k v u ≡ u ++ (k, v) ∷ [] = insert_last k v u (Before-head u n k v b) in
    read_entries-step (length n) bytes m pos
      ((Reads-entry k v short.0.0 short.0.1).at bytes m pos (entry_bytes n ++ rest) h')
    ∙ rw last (
        Reads-entries n short.1 s.1 bytes (record m { user_metadata = u ++ (k, v) ∷ [] })
          (pos + length enc) rest (Before-next u n k v b s.0) ahead
        ∙ ap₂ (λ (u : Map) (n : ℕ). (true, record m { user_metadata = u }, n))
            (append_assoc u ((k, v) ∷ []) n)
            (omega (
              arith,
              length-append enc (entry_bytes n),
              length-append (string_bytes k) (string_bytes v ++ entry_bytes n),
              length-append (string_bytes k) (string_bytes v),
              length-append (string_bytes v) (entry_bytes n),
            )))

Reads-user_metadata :
    (n : Map)
    → length n < 2 ^ 32
    → All (λ e. (length e.0 < 2 ^ 32) × (length e.1 < 2 ^ 32)) n
    → Sorted n
    → Reads read_user_metadata
        (le_bytes 4 (length n % 2 ^ 32) ++ entry_bytes n)
        (λ m. record m { user_metadata = n })
unfolding read_user_metadata
Reads-user_metadata n few short s = record {
  at = λ bytes m pos rest h.
      let word = le_bytes 4 (length n % 2 ^ 32) in
      let size : length word ≡ 4 = length-le_bytes 4 (length n % 2 ^ 32) in
      let h' = h ∙ append_assoc word (entry_bytes n) rest in
      let ahead : At bytes (pos + 4) (entry_bytes n ++ rest) =
        ap (λ (i : ℕ). drop (pos + i) bytes) (sym size)
        ∙ At-append bytes pos word (entry_bytes n ++ rest) h' in
      let count : length n % 2 ^ 32 ≡ length n = omega arith in
      rw (get_u32-At bytes pos (length n) (entry_bytes n ++ rest) h') (
        rw count (
          Reads-entries n short s bytes (record m { user_metadata = [] }) (pos + 4) rest tt ahead
          ∙ ap (λ (i : ℕ). (true, record m { user_metadata = n }, i))
              (omega (
                arith,
                length-append (le_bytes 4 (length n)) (entry_bytes n),
                length-le_bytes 4 (length n),
              ))));
}

object_bytes : ObjectMeta → Bytes
object_bytes m =
    le_bytes 4 1
    ++ (string_bytes m.bucket
        ++ (string_bytes m.key
            ++ (le_bytes 8 (m.size % 2 ^ 64)
                ++ (string_bytes m.etag
                    ++ (string_bytes m.content_type
                        ++ (le_bytes 8 (m.last_modified % 2 ^ 64)
                            ++ (string_bytes m.storage_class
                                ++ (string_bytes m.data_path
                                    ++ (le_bytes 4 (length m.user_metadata % 2 ^ 32)
                                        ++ entry_bytes m.user_metadata)))))))))

encode_object-eq : (m : ObjectMeta) → encode_object m ≡ object_bytes m
unfolding encode_object object_bytes put_u64 put_string
encode_object-eq m = simp (put_entries-eq, append_assoc)

-- Decoding the encoding of an object's metadata succeeds and restores every field, whatever the
-- object held before and whatever bytes follow, if lengths and the number of the user's entries
-- are below 2^32, numbers below 2^64, and the user's entries are in the order of their keys.
pub decode-encode_object :
    (m old : ObjectMeta) (junk : Bytes)
    → ObjectFits m
    → decode_object (encode_object m ++ junk) old ≡ (true, m)
unfolding decode_object object_bytes
decode-encode_object m old junk fits =
    let reads = Reads-and Reads-version (
      Reads-and (Reads-string (λ s m. record m { bucket = s }) m.bucket fits.bucket) (
        Reads-and (Reads-string (λ s m. record m { key = s }) m.key fits.key) (
          Reads-and (Reads-u64 (λ n m. record m { size = n }) m.size fits.size) (
            Reads-and (Reads-string (λ s m. record m { etag = s }) m.etag fits.etag) (
              Reads-and
                (Reads-string (λ s m. record m { content_type = s }) m.content_type
                  fits.content_type)
                (Reads-and
                  (Reads-u64 (λ n m. record m { last_modified = n }) m.last_modified
                    fits.last_modified)
                  (Reads-and
                    (Reads-string (λ s m. record m { storage_class = s }) m.storage_class
                      fits.storage_class)
                    (Reads-and
                      (Reads-string (λ s m. record m { data_path = s }) m.data_path fits.data_path)
                      (Reads-user_metadata m.user_metadata fits.entries fits.texts
                        fits.sorted))))))))) in
    ap (λ (t : Bool × ObjectMeta × ℕ). (t.0, t.1))
      (reads.at (encode_object m ++ junk) old 0 junk
        (ap (λ (b : Bytes). b ++ junk) (encode_object-eq m)))
