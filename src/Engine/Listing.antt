-- ===== src/Engine/Listing.antt =====
-- `Readdir` and `GetLayout` of `KVMetaEngine`: the range that they scan is that of one inode.
use nimbus_store.Base.{
  ℕ, ◌+◌, ◌*◌, ◌%◌, ◌^◌, ◌<◌, List, [], ◌∷◌, ◌++◌, Bool, true, false, not, ◌&&◌, some, map, keep,
  Ordering, ◌==◌, All, length, length-append, leb, ◌≡◌, refl, ap, ap₂, sym, ◌∙◌, ◌≢◌, ◌-◌, arith,
  append-nil, if◌then◌else◌,
}
use nimbus_store.Bytes.{Bytes, cmp, bytes_lt}
use nimbus_store.Bytes.Order.{cmp_trans}
use nimbus_store.Bytes.Words.{length-be_bytes, be_bytes}
use nimbus_store.OrderedMap.{Map, seek_from, Above, Sorted}
use nimbus_store.SliceTree.{SliceInfo}
use nimbus_store.Metadata.Types.{done, Dentry}
use nimbus_store.Engine.Client.{KvClient, IsOrderedClient, scan_range}
use nimbus_store.Engine.Codec.{
  encode_u64, dentry_key, encode_dentry_value, encode_slice_value, encode_inode_value,
}
use nimbus_store.Engine.Codec.RoundTrip.{
  decode-encode_dentry_value, decode-encode_slice_value, drop-encode_u64,
}
use nimbus_store.Engine.Keys.{key, within_word}
use nimbus_store.Engine.Operations.{read_dentries, read_slices, name_of_key, readdir, get_layout}
use nimbus_store.Engine.Entries.{Entry, attributes, child, piece, entry_bytes, Fits, Holds}

abbrev between : Bytes → Bytes → Bytes × Bytes → Bool
between start end e = not (bytes_lt e.0 start) && bytes_lt e.0 end

none_between :
    (start end k : Bytes) (m : Map)
    → Above k m
    → bytes_lt k end ≡ false
    → keep (between start end) m ≡ []
none_between start end k [] a h = refl
none_between start end k ((j, w) ∷ m) a h =
    ground (arith, none_between start end k m a.1 h, cmp_trans k j end a.0)

-- A scan without a limit yields the entries of the range.
scan_range-between :
    (start end : Bytes) (count : ℕ) (m : Map)
    → Sorted m
    → scan_range end 0 count (seek_from start m) ≡ keep (between start end) m
unfolding scan_range seek_from
scan_range-between start end count [] s = refl
scan_range-between start end count ((k, v) ∷ m) s = ground (
  arith,
  scan_range-between start end count m s.1,
  scan_range-between start end (count + 1) m s.1,
  none_between start end k m s.0,
)

-- the directory entries of a parent, and the slices of an inode, in the order of the keys
abbrev pub children : ℕ → List Entry → List Dentry
children parent [] = []
children parent (attributes inode attr ∷ xs) = children parent xs
children parent (child q d ∷ xs) =
    if q == parent then d ∷ children parent xs else children parent xs
children parent (piece inode slice ∷ xs) = children parent xs

abbrev pub pieces : ℕ → List Entry → List SliceInfo
pieces inode [] = []
pieces inode (attributes q attr ∷ xs) = pieces inode xs
pieces inode (child parent d ∷ xs) = pieces inode xs
pieces inode (piece q slice ∷ xs) = if q == inode then slice ∷ pieces inode xs else pieces inode xs

-- the range of a tag and a word
abbrev in_word : ℕ → ℕ → Bytes × Bytes → Bool
in_word tag v = between (key tag v []) (key tag (v + 1) [])

name_of_key-dentry_key :
    (parent : ℕ) (name : Bytes) → name_of_key (dentry_key parent name) ≡ some name
name_of_key-dentry_key parent name =
    let size : leb 9 (length (dentry_key parent name)) ≡ true =
      ground (arith, length-append (encode_u64 parent) name, length-be_bytes 8 parent) in
    rw (size, drop-encode_u64 parent name 0) refl

other_tag : (t u : ℕ) (xs a b v : Bytes) → t ≢ u → between (u ∷ a) (u ∷ b) (t ∷ xs, v) ≡ false
unfolding cmp
other_tag t u xs a b v h = ground (arith, h)

read_dentries-children :
    (parent : ℕ) (xs : List Entry)
    → parent + 1 < 2 ^ 64
    → All Fits xs
    → read_dentries (keep (in_word 68 parent) (map entry_bytes xs)) ≡ some (children parent xs)
unfolding read_dentries
read_dentries-children parent [] w h = refl
read_dentries-children parent (attributes q attr ∷ xs) w h =
    let e =
      other_tag 73 68 (encode_u64 q) (encode_u64 parent ++ []) (encode_u64 (parent + 1) ++ [])
        (encode_inode_value attr) (λ e. absurd (omega (arith, e))) in
    rw e (read_dentries-children parent xs w h.1)
read_dentries-children parent (child q d ∷ xs) w h = ground (
  arith,
  within_word 68 68 q parent d.name h.0.0 w,
  decode-encode_dentry_value d h.0.1 h.0.2,
  name_of_key-dentry_key q d.name,
  read_dentries-children parent xs w h.1,
)
read_dentries-children parent (piece q slice ∷ xs) w h =
    let e =
      other_tag 83 68 (encode_u64 q ++ encode_u64 slice.offset) (encode_u64 parent ++ [])
        (encode_u64 (parent + 1) ++ []) (encode_slice_value slice)
        (λ e. absurd (omega (arith, e))) in
    rw e (read_dentries-children parent xs w h.1)

read_slices-pieces :
    (inode : ℕ) (xs : List Entry)
    → inode + 1 < 2 ^ 64
    → All Fits xs
    → read_slices (keep (in_word 83 inode) (map entry_bytes xs)) ≡ some (pieces inode xs)
unfolding read_slices
read_slices-pieces inode [] w h = refl
read_slices-pieces inode (attributes q attr ∷ xs) w h =
    let e =
      other_tag 73 83 (encode_u64 q) (encode_u64 inode ++ []) (encode_u64 (inode + 1) ++ [])
        (encode_inode_value attr) (λ e. absurd (omega (arith, e))) in
    rw e (read_slices-pieces inode xs w h.1)
read_slices-pieces inode (child q d ∷ xs) w h =
    let e =
      other_tag 68 83 (encode_u64 q ++ d.name) (encode_u64 inode ++ [])
        (encode_u64 (inode + 1) ++ []) (encode_dentry_value d) (λ e. absurd (omega (arith, e))) in
    rw e (read_slices-pieces inode xs w h.1)
read_slices-pieces inode (piece q slice ∷ xs) w h = ground (
  arith,
  within_word 83 83 q inode (encode_u64 slice.offset) h.0.0 w,
  decode-encode_slice_value slice h.0.1,
  read_slices-pieces inode xs w h.1,
)

module _ (c : KvClient) (o : IsOrderedClient c) (s : c.State) (xs : List Entry)
    (holds : Holds (o.entries s) xs) where
  scan-between :
      (tag v : ℕ)
      → c.scan s (tag ∷ encode_u64 v) (tag ∷ encode_u64 (v + 1)) 0
        ≡ done (keep (in_word tag v) (map entry_bytes xs))
  scan-between tag v =
      o.scan_entries s (tag ∷ encode_u64 v) (tag ∷ encode_u64 (v + 1)) 0
      ∙ ap done (
          scan_range-between (tag ∷ encode_u64 v) (tag ∷ encode_u64 (v + 1)) 0 (o.entries s)
            (o.sorted s)
          ∙ ap₂ (λ (a b : Bytes). keep (between (tag ∷ a) (tag ∷ b)) (o.entries s))
              (sym (append-nil (encode_u64 v))) (sym (append-nil (encode_u64 (v + 1))))
          ∙ ap (keep (in_word tag v)) holds.0)

  -- Over a client that is an ordered map and holds encoded attributes, directory entries and
  -- slices, `Readdir` of a parent below 2^64 - 1 returns its directory entries, all of them and no
  -- other, in the order of the store.
  pub readdir-children :
      (parent : ℕ) → parent + 1 < 2 ^ 64 → readdir c s parent ≡ done (some (children parent xs))
  unfolding readdir
  readdir-children parent w =
      let next : (parent + 1) % 2 ^ 64 ≡ parent + 1 = omega arith in
      rw (next, scan-between 68 parent) (ap done (read_dentries-children parent xs w holds.1))

  -- Over a client that is an ordered map and holds encoded attributes, directory entries and
  -- slices, `GetLayout` of an inode below 2^64 - 1 returns the slices that the store holds of it,
  -- all of them and no other, in the order of the store.
  pub get_layout-pieces :
      (inode : ℕ)
      → inode + 1 < 2 ^ 64
      → get_layout c s inode
        ≡ done (
            some
              (record { inode_id = inode; chunk_size = 4 * 1024 * 1024; slices = pieces inode xs }))
  unfolding get_layout
  get_layout-pieces inode w =
      let next : (inode + 1) % 2 ^ 64 ≡ inode + 1 = omega arith in
      rw (next, scan-between 83 inode, read_slices-pieces inode xs w holds.1) refl

no_range :
    (start end : Bytes) (m : Map) → cmp end start ≡ Ordering.lt → keep (between start end) m ≡ []
no_range start end [] h = refl
no_range start end ((k, v) ∷ m) h = ground (arith, no_range start end m h, cmp_trans k end start)

around_zero : cmp (68 ∷ encode_u64 0) (68 ∷ encode_u64 (2 ^ 64 - 1)) ≡ Ordering.lt
unfolding cmp be_bytes
around_zero = refl

-- The range of the last inode number ends at that of inode 0, before it starts: over a client that
-- is an ordered map, `Readdir` of it returns no entry, whatever the store holds.
pub readdir-last :
    (c : KvClient) (o : IsOrderedClient c) (s : c.State) → readdir c s (2 ^ 64 - 1) ≡ done (some [])
unfolding readdir
readdir-last c o s =
    let start = 68 ∷ encode_u64 (2 ^ 64 - 1) in
    let end = 68 ∷ encode_u64 0 in
    let none_found : c.scan s start end 0 ≡ done [] =
      o.scan_entries s start end 0
      ∙ ap done (
          scan_range-between start end 0 (o.entries s) (o.sorted s)
          ∙ no_range start end (o.entries s) around_zero) in
    rw none_found (unfold read_dentries in refl)
