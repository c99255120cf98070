-- ===== src/S3/Store/Objects.antt =====
-- Objects: what is read after a write, over any backend that is an ordered map.
use nimbus_store.Base.{
  [], ◌∷◌, true, false, Option, none, some, ◌≡◌, ap, sym, ◌∙◌, append-nil, if◌then◌else◌,
  Bool-cases, ◌⊎◌, inl, inr,
}
use mathlib.Core.Bool.{false≢true}
use nimbus_store.Bytes.{Bytes, bytes_eq}
use nimbus_store.Bytes.Order.{bytes_eq_refl}
use nimbus_store.OrderedMap.{Map, find, erase}
use nimbus_store.OrderedMap.Laws.{find-insert, find-erase}
use nimbus_store.S3.Backend.{MetadataBackend}
use nimbus_store.S3.Backend.Laws.{IsOrderedBackend, insert_all}
use nimbus_store.S3.Meta.{ObjectMeta, encode_object, decode_object}
use nimbus_store.S3.Meta.ObjectRoundTrip.{ObjectFits, decode-encode_object}
use nimbus_store.S3.Store.{
  object_key, object_list_key, put_object, get_object, delete_object, object_exists, delete_both,
  decode_found_object,
}
use nimbus_store.S3.Store.Keys.{
  SlashFree, object_key_injective, object_key-ne-list_key, bytes_eq_of_ne,
}

-- A pair of entries that is written in one batch.
pub find-insert_pair :
    (j k v l w : Bytes) (m : Map)
    → find j (insert_all ((k, v) ∷ (l, w) ∷ []) m)
      ≡ (if bytes_eq j l then some w else if bytes_eq j k then some v else find j m)
unfolding insert_all
find-insert_pair j k v l w m = simp find-insert

module _ (b : MetadataBackend) (o : IsOrderedBackend b) where
  open o use {entries}

  pub get_object-entries :
      (s : b.State) (bucket key : Bytes) (old : ObjectMeta)
      → get_object b s bucket key old
        ≡ decode_found_object (find (object_key bucket key) (entries s)) old
  unfolding get_object
  get_object-entries s bucket key old =
      ap (λ (v : Option Bytes). decode_found_object v old) (o.get_entries s (object_key bucket key))

  -- The entry under an object's key after a successful `PutObject`.
  find-put_object :
      (s : b.State) (m : ObjectMeta) (bucket key : Bytes)
      → (put_object b s m).1 ≡ true
      → find (object_key bucket key) (entries (put_object b s m).0) ≡ (
          if bytes_eq (object_key bucket key) (object_key m.bucket m.key)
          then some (encode_object m)
          else find (object_key bucket key) (entries s))
  unfolding put_object
  find-put_object s m bucket key done =
      let kvs : Map =
        (object_key m.bucket m.key, encode_object m) ∷ (object_list_key m.bucket m.key, []) ∷ [] in
      rw (o.batch_done s kvs done)
        (find-insert_pair _ _ _ _ _ _ ∙ rw (object_key-ne-list_key bucket m.bucket key m.key))

  -- After a successful `PutObject`, `GetObject` of that bucket and key succeeds with exactly the
  -- metadata that was put, whatever the caller's object held, if its lengths and numbers fit.
  pub get-put_object :
      (s : b.State) (m old : ObjectMeta)
      → ObjectFits m
      → (put_object b s m).1 ≡ true
      → get_object b (put_object b s m).0 m.bucket m.key old ≡ (true, m)
  get-put_object s m old fits done =
      rw (get_object-entries, find-put_object s m m.bucket m.key done, bytes_eq_refl)
        (ap (λ (v : Bytes). decode_object v old) (sym (append-nil (encode_object m)))
          ∙ decode-encode_object m old [] fits)

  -- A `PutObject` that fails has changed nothing.
  pub put_object_failed :
      (s : b.State) (m : ObjectMeta)
      → (put_object b s m).1 ≡ false
      → entries (put_object b s m).0 ≡ entries s
  unfolding put_object
  put_object_failed s m failed = o.batch_failed s _ failed

  -- A `PutObject`, successful or not, does not change what `GetObject` returns for an object of
  -- another bucket or another key, if no bucket name has a slash.
  pub get-put_object_ne :
      (s : b.State) (m old : ObjectMeta) (bucket key : Bytes)
      → SlashFree bucket
      → SlashFree m.bucket
      → ¬ ((bucket ≡ m.bucket) × (key ≡ m.key))
      → get_object b (put_object b s m).0 bucket key old ≡ get_object b s bucket key old
  get-put_object_ne s m old bucket key p q other =
      let keys_differ =
        bytes_eq_of_ne (object_key bucket key) (object_key m.bucket m.key)
          (λ e. other (object_key_injective bucket m.bucket key m.key p q e)) in
      let same : find (object_key bucket key) (entries (put_object b s m).0)
          ≡ find (object_key bucket key) (entries s) =
        elim (Bool-cases (put_object b s m).1) [
          | inl done ↦ find-put_object s m bucket key done ∙ rw keys_differ
          | inr failed ↦ ap (find (object_key bucket key)) (put_object_failed s m failed)
        ] in
      rw (get_object-entries, get_object-entries, same)

  pub find-delete_both :
      (s : b.State) (j k l : Bytes)
      → (delete_both b s k l).1 ≡ true
      → find j (entries (delete_both b s k l).0)
        ≡ (if bytes_eq j l then none else if bytes_eq j k then none else find j (entries s))
  unfolding delete_both
  find-delete_both s j k l done = elim (Bool-cases (b.delete s k).1) [
    | inl first ↦
        rw (first, delete_both)
          (let second = rw (first, delete_both) at done in
            rw (o.delete_done (b.delete s k).0 l second, o.delete_done s k first) (simp find-erase))
    | inr failed ↦ absurd (false≢true (rw (failed, delete_both) at done))
  ]

  -- After a successful `DeleteObject` the object is gone: `ObjectExists` is false, and `GetObject`
  -- fails and leaves the caller's object as it was.
  pub get-delete_object :
      (s : b.State) (bucket key : Bytes) (old : ObjectMeta)
      → (delete_object b s bucket key).1 ≡ true
      → (object_exists b (delete_object b s bucket key).0 bucket key ≡ false)
        × (get_object b (delete_object b s bucket key).0 bucket key old ≡ (false, old))
  unfolding delete_object
  get-delete_object s bucket key old done =
      let gone : find (object_key bucket key) (entries (delete_object b s bucket key).0) ≡ none =
        find-delete_both s _ _ _ done ∙ rw (object_key-ne-list_key, bytes_eq_refl) in
      (o.exists_entries _ _ ∙ rw gone, get_object-entries _ bucket key old ∙ rw gone)

  -- A `DeleteObject` that fails has either changed nothing, or removed the object's record and
  -- left its entry in the listings.
  pub delete_object_failed :
      (s : b.State) (bucket key : Bytes)
      → (delete_object b s bucket key).1 ≡ false
      → (entries (delete_object b s bucket key).0 ≡ entries s)
        ⊎ (entries (delete_object b s bucket key).0 ≡ erase (object_key bucket key) (entries s))
  unfolding delete_object
  delete_object_failed s bucket key failed =
      elim (Bool-cases (b.delete s (object_key bucket key)).1) [
        | inl first ↦ inr (
            rw (first, delete_both)
              (let second = rw (first, delete_both) at failed in
                o.delete_failed (b.delete s (object_key bucket key)).0 _ second
                ∙ o.delete_done s (object_key bucket key) first))
        | inr nothing ↦
            inl (rw (nothing, delete_both) (o.delete_failed s (object_key bucket key) nothing))
      ]
