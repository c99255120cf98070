-- ===== src/Engine/Codec/RoundTrip.antt =====
-- What the codec of `KVMetaEngine` wrote is what it reads.
use nimbus_store.Base.{
  ℕ, zero, suc, ◌+◌, ◌*◌, ◌%◌, ◌^◌, ◌<◌, List, [], ◌∷◌, ◌++◌, some, length, take, drop, leb,
  get_elem?, All, ◌≡◌, refl, ap, sym, ◌∙◌, arith, length-append, take-append, drop-append,
  append_assoc, append-nil, drop-drop, true,
}
use nimbus_store.Bytes.{Bytes}
use nimbus_store.Bytes.Words.{length-be_bytes, of_be-be_bytes}
use nimbus_store.SliceTree.{SliceInfo}
use nimbus_store.Metadata.Types.{
  InodeAttr, Dentry, type_code, IsNamed, type_code-lt, type_of_code-type_code,
}
use nimbus_store.Engine.Codec.{
  encode_u64, decode_u64, encode_inode_value, decode_inode_value, encode_dentry_value,
  decode_dentry_value, encode_slice_value, decode_slice_value,
}

abbrev words : List ℕ → Bytes → Bytes
words [] rest = rest
words (v ∷ vs) rest = encode_u64 v ++ words vs rest

pub drop-encode_u64 : (v : ℕ) (xs : Bytes) (i : ℕ) → drop (8 + i) (encode_u64 v ++ xs) ≡ drop i xs
drop-encode_u64 v xs i =
    sym (drop-drop 8 i (encode_u64 v ++ xs))
    ∙ ap (λ (n : ℕ). drop i (drop n (encode_u64 v ++ xs))) (sym (length-be_bytes 8 v))
    ∙ ap (drop i) (drop-append (encode_u64 v) xs)

decode_u64-head : (v : ℕ) (rest : Bytes) → v < 2 ^ 64 → decode_u64 (encode_u64 v ++ rest) 0 ≡ some v
unfolding decode_u64
decode_u64-head v rest h =
    let size = length-append (encode_u64 v) rest in
    let fits : leb (0 + 8) (length (encode_u64 v ++ rest) + 1) ≡ true =
      ground (arith, size, length-be_bytes 8 v) in
    let chars : take 8 ((encode_u64 v ++ rest) ++ 0 ∷ []) ≡ encode_u64 v =
      ap (take 8) (append_assoc (encode_u64 v) rest (0 ∷ []))
      ∙ ap (λ (n : ℕ). take n (encode_u64 v ++ (rest ++ 0 ∷ []))) (sym (length-be_bytes 8 v))
      ∙ take-append (encode_u64 v) (rest ++ 0 ∷ []) in
    rw (fits, chars) (ap some (of_be-be_bytes 8 v h (omega arith)))

decode_u64-tail :
    (v : ℕ) (xs : Bytes) (o : ℕ) → decode_u64 (encode_u64 v ++ xs) (8 + o) ≡ decode_u64 xs o
unfolding decode_u64
decode_u64-tail v xs o =
    let size : length (encode_u64 v ++ xs) ≡ 8 + length xs =
      omega (arith, length-append (encode_u64 v) xs, length-be_bytes 8 v) in
    let behind : drop (8 + o) ((encode_u64 v ++ xs) ++ 0 ∷ []) ≡ drop o (xs ++ 0 ∷ []) =
      ap (drop (8 + o)) (append_assoc (encode_u64 v) xs (0 ∷ []))
      ∙ drop-encode_u64 v (xs ++ 0 ∷ []) o in
    rw behind (ground (arith, size))

-- The word at an index of the words that a text starts with.
pub decode_u64-words :
    (vs : List ℕ) (rest : Bytes) (i v : ℕ)
    → All (λ w. w < 2 ^ 64) vs
    → get_elem? vs i ≡ some v
    → decode_u64 (words vs rest) (i * 8) ≡ some v
decode_u64-words [] rest i v h e = cc
decode_u64-words (w ∷ vs) rest zero v h e = decode_u64-head w (words vs rest) h.0 ∙ e
decode_u64-words (w ∷ vs) rest (suc i) v h e =
    let o : suc i * 8 ≡ 8 + i * 8 = omega arith in
    ap (decode_u64 (words (w ∷ vs) rest)) o
    ∙ decode_u64-tail w (words vs rest) (i * 8)
    ∙ decode_u64-words vs rest i v h.1 e

-- The attributes fit their types.
abbrev pub IsInodeAttr : InodeAttr → Type 0
IsInodeAttr a =
    (a.inode_id < 2 ^ 64)
    × (a.mode.mode < 2 ^ 32)
    × (a.uid < 2 ^ 32)
    × (a.gid < 2 ^ 32)
    × (a.size < 2 ^ 64)
    × (a.mtime < 2 ^ 64)
    × (a.ctime < 2 ^ 64)
    × (a.nlink < 2 ^ 64)

abbrev inode_words : InodeAttr → List ℕ
inode_words a = a.inode_id ∷ a.mode.mode ∷ a.uid ∷ a.gid ∷ a.size ∷ a.mtime ∷ a.ctime ∷ a.nlink ∷ []

encode_inode_value-words : (a : InodeAttr) → encode_inode_value a ≡ words (inode_words a) []
unfolding encode_inode_value
encode_inode_value-words a = simp (append_assoc, append-nil)

pub decode-encode_inode_value :
    (a : InodeAttr) → IsInodeAttr a → decode_inode_value (encode_inode_value a) ≡ some a
unfolding decode_inode_value
decode-encode_inode_value a h =
    let s = encode_inode_value a in
    let word = λ (i v : ℕ) (e : get_elem? (inode_words a) i ≡ some v).
      ap (λ t. decode_u64 t (i * 8)) (encode_inode_value-words a)
      ∙ decode_u64-words (inode_words a) [] i v (omega arith) e in
    let mode : a.mode.mode % 2 ^ 32 ≡ a.mode.mode = omega arith in
    let uid : a.uid % 2 ^ 32 ≡ a.uid = omega arith in
    let gid : a.gid % 2 ^ 32 ≡ a.gid = omega arith in
    rw
      (
        word 0 a.inode_id refl,
        word 1 a.mode.mode refl,
        word 2 a.uid refl,
        word 3 a.gid refl,
        word 4 a.size refl,
        word 5 a.mtime refl,
        word 6 a.ctime refl,
        word 7 a.nlink refl,
        mode,
        uid,
        gid,
      )
      refl

pub decode-encode_dentry_value :
    (d : Dentry)
    → d.inode_id < 2 ^ 64
    → IsNamed d.type
    → decode_dentry_value (encode_dentry_value d) ≡ some (record d { name = [] })
unfolding decode_dentry_value encode_dentry_value
decode-encode_dentry_value d h k =
    let c = type_code-lt d.type k in
    let code : type_code d.type % 2 ^ 32 ≡ type_code d.type = omega arith in
    let text : encode_u64 d.inode_id ++ encode_u64 (type_code d.type)
        ≡ words (d.inode_id ∷ type_code d.type ∷ []) [] =
      ap (λ x. encode_u64 d.inode_id ++ x) (sym (append-nil (encode_u64 (type_code d.type)))) in
    let word = λ (i v : ℕ) (e : get_elem? (d.inode_id ∷ type_code d.type ∷ []) i ≡ some v).
      ap (λ t. decode_u64 t (i * 8)) text
      ∙ decode_u64-words (d.inode_id ∷ type_code d.type ∷ []) [] i v (omega arith) e in
    rw
      (
        word 0 d.inode_id refl,
        word 1 (type_code d.type) refl,
        code,
        type_of_code-type_code d.type k,
      )
      refl

-- The numbers of a slice and the length of its key fit in 64 bits.
abbrev pub IsSliceInfo : SliceInfo → Type 0
IsSliceInfo sl =
    (sl.slice_id < 2 ^ 64)
    × (sl.offset < 2 ^ 64)
    × (sl.size < 2 ^ 64)
    × (length sl.storage_key < 2 ^ 64)

abbrev slice_words : SliceInfo → List ℕ
slice_words sl = sl.slice_id ∷ sl.offset ∷ sl.size ∷ length sl.storage_key ∷ []

encode_slice_value-words :
    (sl : SliceInfo) → encode_slice_value sl ≡ words (slice_words sl) sl.storage_key
unfolding encode_slice_value
encode_slice_value-words sl = simp (append_assoc)

length-words : (vs : List ℕ) (rest : Bytes) → length (words vs rest) ≡ 8 * length vs + length rest
length-words [] rest = omega arith
length-words (v ∷ vs) rest =
    omega (
      arith,
      length-append (encode_u64 v) (words vs rest),
      length-be_bytes 8 v,
      length-words vs rest,
    )

drop-words : (vs : List ℕ) (rest : Bytes) → drop (8 * length vs) (words vs rest) ≡ rest
drop-words [] rest = refl
drop-words (v ∷ vs) rest =
    let o : 8 * length (v ∷ vs) ≡ 8 + 8 * length vs = omega arith in
    ap (λ (n : ℕ). drop n (words (v ∷ vs) rest)) o
    ∙ drop-encode_u64 v (words vs rest) (8 * length vs)
    ∙ drop-words vs rest

take_all : (xs : Bytes) → take (length xs) xs ≡ xs
take_all [] = refl
take_all (x ∷ xs) = ap (◌∷◌ x) (take_all xs)

pub decode-encode_slice_value :
    (sl : SliceInfo) → IsSliceInfo sl → decode_slice_value (encode_slice_value sl) ≡ some sl
unfolding decode_slice_value
decode-encode_slice_value sl h =
    let text = encode_slice_value-words sl in
    let word = λ (i v : ℕ) (e : get_elem? (slice_words sl) i ≡ some v).
      ap (λ t. decode_u64 t (i * 8)) text
      ∙ decode_u64-words (slice_words sl) sl.storage_key i v (omega arith) e in
    let fits : leb 32 (length (encode_slice_value sl)) ≡ true =
      ground (arith, ap (length {A = ℕ}) text, length-words (slice_words sl) sl.storage_key) in
    let key : take (length sl.storage_key) (drop 32 (encode_slice_value sl)) ≡ sl.storage_key =
      ap (λ t. take (length sl.storage_key) (drop 32 t)) text
      ∙ ap (take (length sl.storage_key)) (drop-words (slice_words sl) sl.storage_key)
      ∙ take_all sl.storage_key in
    rw
      (
        word 0 sl.slice_id refl,
        word 1 sl.offset refl,
        word 2 sl.size refl,
        word 3 (length sl.storage_key) refl,
        fits,
        key,
      )
      refl
