-- ===== src/Metadata/Paths.antt =====
-- `ParsePath` and `SplitParentChild` of src/metadata/metadata_service_impl.cpp.
pub mod Joined
use nimbus_store.Base.{
  ℕ, List, [], ◌∷◌, ◌++◌, Bool, true, false, Option, none, some, ◌==◌, ◌≡◌, ◌≢◌, refl, arith, All,
  if◌then◌else◌, append-nil, append_assoc, sym, ap, ◌∙◌,
}
use nimbus_store.Bytes.{Bytes, codes, bytes_eq}
use nimbus_store.Metadata.Types.{Result, done, failed, invalid_argument}

abbrev pub slash : ℕ
slash = 47

-- the part that is read so far, where it is not empty
abbrev pub flushed : Bytes → List Bytes → List Bytes
flushed [] parts = parts
flushed (c ∷ part) parts = (c ∷ part) ∷ parts

-- the loop of `ParsePath` from the character 1 on, and what it pushes
unfoldable pub parse_parts : Bytes → Bytes → List Bytes
parse_parts part [] = flushed part []
parse_parts part (c ∷ path) =
    if c == slash then flushed part (parse_parts [] path) else parse_parts (part ++ (c ∷ [])) path

unfoldable pub parse_path : Bytes → Result (List Bytes)
parse_path [] = failed (invalid_argument (codes "Path must start with /"))
parse_path (c ∷ path) =
    if c == slash
    then done (parse_parts [] path)
    else failed (invalid_argument (codes "Path must start with /"))

-- `rfind('/')`: what stands before the last slash, and behind it
unfoldable pub cut_last : Bytes → Option (Bytes × Bytes)
cut_last [] = none
cut_last (c ∷ path) = elim (cut_last path) [
  | some (dir, name) ↦ some (c ∷ dir, name)
  | none ↦ if c == slash then some ([], path) else none
]

-- Without a slash `rfind` is `npos`, and `substr(0, npos)` and `substr(npos + 1)` are both the
-- whole path.
abbrev pub split_at : Bytes → Option (Bytes × Bytes) → Bytes × Bytes
split_at path none = (path, path)
split_at path (some ([], name)) = (codes "/", name)
split_at path (some (c ∷ dir, name)) = (c ∷ dir, name)

unfoldable pub split_parent_child : Bytes → Bytes × Bytes
unfolding cut_last
split_parent_child path =
    if bytes_eq path (codes "/")
    then (codes "/", [])
    else if bytes_eq path []
    then (codes "/", [])
    else split_at path (cut_last path)
