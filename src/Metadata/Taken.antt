-- ===== src/Metadata/Taken.antt =====
-- `Create` of src/metadata/metadata_service_impl.cpp where the name is taken.
use nimbus_store.Base.{
  ℕ, List, [], ◌∷◌, ◌++◌, some, ◌≡◌, inl, inr, refl, ap, sym, ◌∙◌, All, Option-cases,
}
use nimbus_store.Bytes.{Bytes, codes}
use nimbus_store.Metadata.Types.{done, Dentry, FileMode, exist, Result-cases, failed≢done}
use nimbus_store.Metadata.Store.{MetadataStore, MetaPartition, lookup_dentry}
use nimbus_store.Metadata.Paths.Joined.{IsName, absolute, split_parent_child-absolute, not_equal}
use nimbus_store.Metadata.Service.{
  Service, locate_partition, ask_located, dentry_of, lookup_parts, lookup_path, create,
}
use nimbus_store.Metadata.Walks.{lookup_parts-step, lookup_parts-stop}
use nimbus_store.Metadata.Created.{lookup_path-directory_path, lookup_path-absolute}

module _ (m : MetadataStore) where
  -- The last step of a walk.
  abbrev LastStep : List (MetaPartition m) → ℕ → List Bytes → Bytes → Type 0
  LastStep ps cur parts name =
      (parent : ℕ) × (d : Dentry) × (lookup_parts m ps cur parts ≡ done parent)
      × (dentry_of m ps parent name ≡ done d)

  last_step :
      (ps : List (MetaPartition m)) (cur target : ℕ) (parts : List Bytes) (name : Bytes)
      → lookup_parts m ps cur (parts ++ name ∷ []) ≡ done target
      → LastStep ps cur parts name
  last_step ps cur target [] name e = elim (Result-cases (dentry_of m ps cur name)) [
    | inl (d, y) ↦ (cur, d, unfold lookup_parts in refl, y)
    | inr (s, y) ↦ absurd (failed≢done (sym (lookup_parts-stop m ps cur name [] s y) ∙ e))
  ]
  last_step ps cur target (part ∷ parts) name e = elim (Result-cases (dentry_of m ps cur part)) [
    | inl (d, y) ↦
        let (parent, d', w, x) =
          last_step ps d.inode_id target parts name
            (sym (lookup_parts-step m ps cur part (parts ++ name ∷ []) d y) ∙ e) in
        (parent, d', lookup_parts-step m ps cur part parts d y ∙ w, x)
    | inr (s, y) ↦
        absurd (failed≢done (sym (lookup_parts-stop m ps cur part (parts ++ name ∷ []) s y) ∙ e))
  ]

  located :
      (ps : List (MetaPartition m)) (parent : ℕ) (name : Bytes) (d : Dentry)
      → dentry_of m ps parent name ≡ done d
      → (i : ℕ) × (locate_partition m ps parent ≡ some i)
  located ps parent name d x = elim (Option-cases (locate_partition m ps parent)) [
    | inl l ↦ absurd (
        failed≢done (
          sym (
            ap (λ o. ask_located m ps o (λ (p : MetaPartition m). lookup_dentry m p parent name)) l)
          ∙ x))
    | inr (i, l) ↦ (i, l)
  ]

  -- Where an absolute path, of names that are not empty and without slashes, leads to an inode,
  -- creating a file at it answers that it exists and leaves the service as it was.
  pub create-exist :
      (now : ℕ) (svc : Service m) (mode : FileMode) (uid gid target : ℕ) (names : List Bytes)
      (name : Bytes)
      → All IsName names
      → IsName name
      → lookup_path m svc (absolute (names ++ name ∷ [])) ≡ done target
      → create m now svc (absolute (names ++ name ∷ [])) mode uid gid
        ≡ (exist (codes "File already exists"), svc)
  unfolding create
  create-exist now svc mode uid gid target names name h k e =
      let (parent, d, w, x) =
        last_step svc.partitions 1 target names name
          (sym (lookup_path-absolute m svc names name h k) ∙ e) in
      let (i, l) = located svc.partitions parent name d x in
      rw
        (
          split_parent_child-absolute names name h k,
          not_equal name [] k.0,
          lookup_path-directory_path m svc names h,
          w,
          l,
          x,
        )
        refl
