-- ===== src/Metadata/Walks.antt =====
-- What a call of one partition leaves of the answers of the service's partitions.
use nimbus_store.Base.{
  ℕ, zero, suc, ◌^◌, ◌<◌, List, [], ◌∷◌, ◌++◌, true, Option, none, some, get_elem?, ◌==◌, ◌≡◌, ◌≢◌,
  ◌⊎◌, inl, inr, refl, ap, ap₂, sym, ◌∙◌, arith, ==→eq, Bool-cases,
}
use nimbus_store.Bytes.{Bytes}
use nimbus_store.Metadata.Types.{
  Status, Result, done, failed, Dentry, is_ok, Result-cases, failed≢done, done-injective,
}
use mathlib.Core.Bool.{false≢true}
use nimbus_store.Metadata.Store.{MetadataStore, MetaPartition}
use nimbus_store.Metadata.Service.{
  first_owner, or_first, locate_partition, on_partition, ask, ask_located, dentry_of, lookup_parts,
  walk_failure,
}

module _ (m : MetadataStore) (f : MetaPartition m → Status × MetaPartition m) where
  -- The call keeps the range of inodes.
  abbrev pub KeepsConfig : Type 0
  KeepsConfig = (p : MetaPartition m) → (f p).1.config ≡ p.config

  first_owner-on_partition :
      KeepsConfig
      → (i inode : ℕ) (ps : List (MetaPartition m))
      → first_owner m (on_partition m i f ps).1 inode ≡ first_owner m ps inode
  unfolding first_owner on_partition
  first_owner-on_partition k i inode [] = refl
  first_owner-on_partition k zero inode (p ∷ ps) = rw (k p) refl
  first_owner-on_partition k (suc i) inode (p ∷ ps) =
      rw (first_owner-on_partition k i inode ps) refl

  or_first-on_partition :
      (i : ℕ) (o : Option ℕ) (ps : List (MetaPartition m))
      → or_first m (on_partition m i f ps).1 o ≡ or_first m ps o
  unfolding on_partition
  or_first-on_partition i (some j) ps = refl
  or_first-on_partition i none [] = refl
  or_first-on_partition zero none (p ∷ ps) = refl
  or_first-on_partition (suc i) none (p ∷ ps) = refl

  pub locate-on_partition :
      KeepsConfig
      → (i inode : ℕ) (ps : List (MetaPartition m))
      → locate_partition m (on_partition m i f ps).1 inode ≡ locate_partition m ps inode
  unfolding locate_partition
  locate-on_partition k i inode ps =
      ap (or_first m (on_partition m i f ps).1) (first_owner-on_partition k i inode ps)
      ∙ or_first-on_partition i (first_owner m ps inode) ps

  ask-on_partition :
      {A : Type 0} (g : MetaPartition m → Result A)
      → ((p : MetaPartition m) → g (f p).1 ≡ g p)
      → (i j : ℕ) (ps : List (MetaPartition m))
      → ask m (get_elem? (on_partition m i f ps).1 j) g ≡ ask m (get_elem? ps j) g
  unfolding on_partition
  ask-on_partition g h i j [] = refl
  ask-on_partition g h zero zero (p ∷ ps) = h p
  ask-on_partition g h zero (suc j) (p ∷ ps) = refl
  ask-on_partition g h (suc i) zero (p ∷ ps) = refl
  ask-on_partition g h (suc i) (suc j) (p ∷ ps) = ask-on_partition g h i j ps

  pub ask_located-on_partition :
      {A : Type 0} (g : MetaPartition m → Result A)
      → KeepsConfig
      → ((p : MetaPartition m) → g (f p).1 ≡ g p)
      → (i inode : ℕ) (ps : List (MetaPartition m))
      → ask_located m
          (on_partition m i f ps).1
          (locate_partition m (on_partition m i f ps).1 inode)
          g
        ≡ ask_located m ps (locate_partition m ps inode) g
  ask_located-on_partition g k h i inode ps =
      ap (λ o. ask_located m (on_partition m i f ps).1 o g) (locate-on_partition k i inode ps)
      ∙ at (locate_partition m ps inode)
    where
      at : (o : Option ℕ) → ask_located m (on_partition m i f ps).1 o g ≡ ask_located m ps o g
      at none = refl
      at (some j) = ask-on_partition g h i j ps

  -- A call that went well was one of a partition that is there.
  pub on_partition-is_ok :
      (i : ℕ) (ps : List (MetaPartition m))
      → is_ok (on_partition m i f ps).0 ≡ true
      → (p : MetaPartition m) × (is_ok (f p).0 ≡ true)
        × (get_elem? (on_partition m i f ps).1 i ≡ some (f p).1)
  unfolding on_partition
  on_partition-is_ok i [] e = absurd (false≢true e)
  on_partition-is_ok zero (p ∷ ps) e = (p, e, refl)
  on_partition-is_ok (suc i) (p ∷ ps) e = on_partition-is_ok i ps e

module _ (m : MetadataStore) where
  pub lookup_parts-step :
      (ps : List (MetaPartition m)) (cur : ℕ) (part : Bytes) (parts : List Bytes) (d : Dentry)
      → dentry_of m ps cur part ≡ done d
      → lookup_parts m ps cur (part ∷ parts) ≡ lookup_parts m ps d.inode_id parts
  unfolding lookup_parts
  lookup_parts-step ps cur part parts d y = rw y refl

  pub lookup_parts-stop :
      (ps : List (MetaPartition m)) (cur : ℕ) (part : Bytes) (parts : List Bytes) (s : Status)
      → dentry_of m ps cur part ≡ failed s
      → lookup_parts m ps cur (part ∷ parts)
        ≡ failed (walk_failure m (locate_partition m ps cur) part)
  unfolding lookup_parts
  lookup_parts-stop ps cur part parts s y = rw y refl

  -- The inodes that a walk meets are words of 64 bits.
  abbrev pub IsWalked : List (MetaPartition m) → Type 0
  IsWalked ps = (q : ℕ) (n : Bytes) (d : Dentry) → dentry_of m ps q n ≡ done d → d.inode_id < 2 ^ 64

  pub lookup_parts-word :
      (ps : List (MetaPartition m))
      → IsWalked ps
      → (cur target : ℕ) (parts : List Bytes) → cur < 2 ^ 64
      → lookup_parts m ps cur parts ≡ done target
      → target < 2 ^ 64
  lookup_parts-word ps walked cur target [] w e =
      let same : cur ≡ target = done-injective (unfold lookup_parts in e) in omega (arith, w, same)
  lookup_parts-word ps walked cur target (part ∷ parts) w e =
      elim (Result-cases (dentry_of m ps cur part)) [
        | inl (d, y) ↦
            lookup_parts-word ps walked d.inode_id target parts (walked cur part d y)
              (sym (lookup_parts-step ps cur part parts d y) ∙ e)
        | inr (s, y) ↦ absurd (failed≢done (sym (lookup_parts-stop ps cur part parts s y) ∙ e))
      ]

  entries_differ :
      (ps : List (MetaPartition m)) (q parent : ℕ) (n name : Bytes) (s : Status) (d : Dentry)
      → dentry_of m ps parent name ≡ failed s
      → dentry_of m ps q n ≡ done d
      → (q ≢ parent) ⊎ (n ≢ name)
  entries_differ ps q parent n name s d x y = elim (Bool-cases (q == parent)) [
    | inr e ↦ inl (λ h. absurd (ground (arith, h, e)))
    | inl e ↦ inr (λ h.
        failed≢done (sym x ∙ ap₂ (λ a b. dentry_of m ps a b) (sym (==→eq q parent e)) (sym h) ∙ y))
  ]

  -- A walk that has no use for the entry `name` of `parent`, which is not there, is the same where
  -- only that entry changed.
  pub lookup_parts-same :
      (ps ps' : List (MetaPartition m)) (parent : ℕ) (name : Bytes) (s : Status)
      → dentry_of m ps parent name ≡ failed s
      → IsWalked ps
      → ((q : ℕ) (n : Bytes)
          → q < 2 ^ 64
          → ((q ≢ parent) ⊎ (n ≢ name))
          → dentry_of m ps' q n ≡ dentry_of m ps q n)
      → (cur target : ℕ) (parts : List Bytes) → cur < 2 ^ 64
      → lookup_parts m ps cur parts ≡ done target
      → lookup_parts m ps' cur parts ≡ done target
  unfolding lookup_parts
  lookup_parts-same ps ps' parent name s x walked k cur target [] w e = e
  lookup_parts-same ps ps' parent name s x walked k cur target (part ∷ parts) w e =
      elim (Result-cases (dentry_of m ps cur part)) [
        | inl (d, y) ↦
            lookup_parts-step ps' cur part parts d
              (k cur part w (entries_differ ps cur parent part name s d x y) ∙ y)
            ∙ lookup_parts-same ps ps' parent name s x walked k d.inode_id target parts
                (walked cur part d y) (sym (lookup_parts-step ps cur part parts d y) ∙ e)
        | inr (s', y) ↦ absurd (failed≢done (sym (lookup_parts-stop ps cur part parts s' y) ∙ e))
      ]

  -- A walk along one more name.
  pub lookup_parts-append :
      (ps : List (MetaPartition m)) (cur target : ℕ) (parts : List Bytes) (name : Bytes)
      (d : Dentry)
      → lookup_parts m ps cur parts ≡ done target
      → dentry_of m ps target name ≡ done d
      → lookup_parts m ps cur (parts ++ name ∷ []) ≡ done d.inode_id
  unfolding lookup_parts
  lookup_parts-append ps cur target [] name d e k =
      rw (ap (λ q. dentry_of m ps q name) (done-injective e) ∙ k) refl
  lookup_parts-append ps cur target (part ∷ parts) name d e k =
      elim (Result-cases (dentry_of m ps cur part)) [
        | inl (d', y) ↦
            lookup_parts-step ps cur part (parts ++ name ∷ []) d' y
            ∙ lookup_parts-append ps d'.inode_id target parts name d
                (sym (lookup_parts-step ps cur part parts d' y) ∙ e) k
        | inr (s', y) ↦ absurd (failed≢done (sym (lookup_parts-stop ps cur part parts s' y) ∙ e))
      ]
