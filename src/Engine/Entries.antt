-- ===== src/Engine/Entries.antt =====
-- What a store of `KVMetaEngine` holds: attributes, directory entries and slices, as pairs of a key
-- and a value.
use nimbus_store.Base.{
  ℕ, ◌^◌, ◌<◌, List, [], ◌∷◌, map, Ordering, All, ◌≡◌, refl, ap, ◌∙◌, arith, if◌then◌else◌,
  Bool-cases, inl, inr,
}
use nimbus_store.Bytes.{Bytes, cmp, bytes_eq}
use nimbus_store.OrderedMap.{Map, insert, erase}
use nimbus_store.SliceTree.{SliceInfo}
use nimbus_store.Metadata.Types.{FileType, FileMode, InodeAttr, Dentry, IsNamed, is_ok}
use nimbus_store.Metadata.Store.{fresh_attr}
use nimbus_store.Engine.Client.{KvClient, IsOrderedClient}
use nimbus_store.Engine.Codec.{
  inode_key, dentry_key, slice_key, encode_inode_value, encode_dentry_value, encode_slice_value,
}
use nimbus_store.Engine.Codec.RoundTrip.{IsInodeAttr, IsSliceInfo}
use nimbus_store.Engine.Operations.{
  create_inode, set_attr, delete_inode, create_dentry, delete_dentry, add_slice,
}

pub data Entry : Type 0 where
  attributes : ℕ → InodeAttr → Entry
  child : ℕ → Dentry → Entry
  piece : ℕ → SliceInfo → Entry

abbrev pub entry_key : Entry → Bytes
entry_key (attributes inode attr) = inode_key inode
entry_key (child parent d) = dentry_key parent d.name
entry_key (piece inode slice) = slice_key inode slice.offset

abbrev pub entry_value : Entry → Bytes
entry_value (attributes inode attr) = encode_inode_value attr
entry_value (child parent d) = encode_dentry_value d
entry_value (piece inode slice) = encode_slice_value slice

abbrev pub entry_bytes : Entry → Bytes × Bytes
entry_bytes e = (entry_key e, entry_value e)

-- The numbers fit their types, and the type of a directory entry is named.
abbrev pub Fits : Entry → Type 0
Fits (attributes inode attr) = (inode < 2 ^ 64) × IsInodeAttr attr
Fits (child parent d) = (parent < 2 ^ 64) × (d.inode_id < 2 ^ 64) × IsNamed d.type
Fits (piece inode slice) = (inode < 2 ^ 64) × IsSliceInfo slice

-- A store that holds such entries and nothing else.
abbrev pub Holds : Map → List Entry → Type 0
Holds m xs = (m ≡ map entry_bytes xs) × All Fits xs

-- The list of entries after a write, and after a deletion of a key.
abbrev insert_entry : Entry → List Entry → List Entry
insert_entry x [] = x ∷ []
insert_entry x (y ∷ ys) = elim (cmp (entry_key x) (entry_key y)) [
  | Ordering.lt ↦ x ∷ y ∷ ys
  | Ordering.eq ↦ x ∷ ys
  | Ordering.gt ↦ y ∷ insert_entry x ys
]

abbrev erase_entry : Bytes → List Entry → List Entry
erase_entry k [] = []
erase_entry k (y ∷ ys) = if bytes_eq k (entry_key y) then erase_entry k ys else y ∷ erase_entry k ys

insert-map :
    (x : Entry) (xs : List Entry)
    → insert (entry_key x) (entry_value x) (map entry_bytes xs)
      ≡ map entry_bytes (insert_entry x xs)
unfolding insert
insert-map x [] = refl
insert-map x (y ∷ ys) = ground (arith, insert-map x ys)

insert_entry-Fits :
    (x : Entry) (xs : List Entry) → Fits x → All Fits xs → All Fits (insert_entry x xs)
insert_entry-Fits x [] h k = (h, tt)
insert_entry-Fits x (y ∷ ys) h k = ground (arith, insert_entry-Fits x ys h k.1)

erase-map :
    (k : Bytes) (xs : List Entry)
    → erase k (map entry_bytes xs) ≡ map entry_bytes (erase_entry k xs)
unfolding erase
erase-map k [] = refl
erase-map k (y ∷ ys) = ground (arith, erase-map k ys)

erase_entry-Fits : (k : Bytes) (xs : List Entry) → All Fits xs → All Fits (erase_entry k xs)
erase_entry-Fits k [] h = tt
erase_entry-Fits k (y ∷ ys) h = ground (arith, erase_entry-Fits k ys h.1)

-- The operations that write.
pub data Write : Type 0 where
  creates_inode : ℕ → ℕ → FileMode → ℕ → ℕ → Write
  sets_attr : ℕ → InodeAttr → ℕ → Write
  deletes_inode : ℕ → Write
  creates_dentry : ℕ → Bytes → ℕ → FileType → Write
  deletes_dentry : ℕ → Bytes → Write
  adds_slice : ℕ → SliceInfo → Write

module _ (c : KvClient) where
  abbrev pub run_write : c.State → Write → c.State
  run_write s (creates_inode now inode mode uid gid) = (create_inode c now s inode mode uid gid).0
  run_write s (sets_attr inode attr to_set) = (set_attr c s inode attr to_set).0
  run_write s (deletes_inode inode) = (delete_inode c s inode).0
  run_write s (creates_dentry parent name inode type) = (create_dentry c s parent name inode type).0
  run_write s (deletes_dentry parent name) = (delete_dentry c s parent name).0
  run_write s (adds_slice inode slice) = (add_slice c s inode slice).0

-- The arguments fit their types.
abbrev pub IsCall : Write → Type 0
IsCall (creates_inode now inode mode uid gid) =
    Fits (attributes inode (fresh_attr now inode mode uid gid))
IsCall (sets_attr inode attr to_set) = Fits (attributes inode attr)
IsCall (deletes_inode inode) = Unit
IsCall (creates_dentry parent name inode type) =
    Fits (child parent (record { name = name; inode_id = inode; type = type }))
IsCall (deletes_dentry parent name) = Unit
IsCall (adds_slice inode slice) = Fits (piece inode slice)

module _ (c : KvClient) (o : IsOrderedClient c) where
  abbrev pub IsEngineState : c.State → Type 0
  IsEngineState s = (xs : List Entry) × Holds (o.entries s) xs

  set-IsEngineState :
      (s : c.State) (x : Entry)
      → Fits x
      → IsEngineState s
      → IsEngineState (c.set s (entry_key x) (entry_value x)).0
  set-IsEngineState s x f (xs, (e, h)) =
      elim (Bool-cases (is_ok (c.set s (entry_key x) (entry_value x)).1)) [
        | inl ok ↦ (
          insert_entry x xs,
          (
            o.set_done s (entry_key x) (entry_value x) ok
                ∙ ap (insert (entry_key x) (entry_value x)) e
                ∙ insert-map x xs,
            insert_entry-Fits x xs f h,
          ),
        )
        | inr bad ↦ (xs, (o.set_failed s (entry_key x) (entry_value x) bad ∙ e, h))
      ]

  delete-IsEngineState :
      (s : c.State) (k : Bytes) → IsEngineState s → IsEngineState (c.delete s k).0
  delete-IsEngineState s k (xs, (e, h)) = elim (Bool-cases (is_ok (c.delete s k).1)) [
    | inl ok ↦ (
      erase_entry k xs,
      (o.delete_done s k ok ∙ ap (erase k) e ∙ erase-map k xs, erase_entry-Fits k xs h),
    )
    | inr bad ↦ (xs, (o.delete_failed s k bad ∙ e, h))
  ]

  -- Over a client that is an ordered map, every operation that writes, with arguments that fit their
  -- types, keeps a store that holds encoded attributes, directory entries and slices and nothing
  -- else, whether it reports OK or an error.
  pub run_write-IsEngineState :
      (s : c.State) (w : Write) → IsCall w → IsEngineState s → IsEngineState (run_write c s w)
  unfolding create_inode set_attr delete_inode create_dentry delete_dentry add_slice
  run_write-IsEngineState s (creates_inode now inode mode uid gid) f h =
      set-IsEngineState s (attributes inode (fresh_attr now inode mode uid gid)) f h
  run_write-IsEngineState s (sets_attr inode attr to_set) f h =
      set-IsEngineState s (attributes inode attr) f h
  run_write-IsEngineState s (deletes_inode inode) f h = delete-IsEngineState s (inode_key inode) h
  run_write-IsEngineState s (creates_dentry parent name inode type) f h =
      set-IsEngineState s (child parent (record { name = name; inode_id = inode; type = type })) f h
  run_write-IsEngineState s (deletes_dentry parent name) f h =
      delete-IsEngineState s (dentry_key parent name) h
  run_write-IsEngineState s (adds_slice inode slice) f h =
      set-IsEngineState s (piece inode slice) f h
