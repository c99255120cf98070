-- ===== src/Metadata/Paths/Joined.antt =====
-- Absolute paths: `ParsePath` and `SplitParentChild` of src/metadata/metadata_service_impl.cpp take
-- them apart.
use nimbus_store.Base.{
  ℕ, List, [], ◌∷◌, ◌++◌, false, none, some, ◌==◌, ◌≡◌, ◌≢◌, refl, arith, All, append-nil,
  append_assoc, sym, ap, ◌∙◌, length, length-append, ◌<◌, Bool-cases, inl, inr,
}
use nimbus_store.Bytes.{Bytes, codes, bytes_eq}
use nimbus_store.Bytes.Order.{bytes_eq→eq}
use nimbus_store.Metadata.Types.{done}
use nimbus_store.Metadata.Paths.{
  slash, parse_parts, parse_path, cut_last, split_parent_child, split_at,
}

-- Names without a slash, and not empty.
abbrev pub IsName : Bytes → Type 0
IsName name = (name ≢ []) × All (λ c. c ≢ slash) name

abbrev pub absolute : List Bytes → Bytes
absolute [] = []
absolute (name ∷ names) = slash ∷ name ++ absolute names

abbrev pub directory_path : List Bytes → Bytes
directory_path [] = slash ∷ []
directory_path (name ∷ names) = absolute (name ∷ names)

parse_parts-append :
    (part name rest : Bytes)
    → All (λ c. c ≢ slash) name
    → parse_parts part (name ++ rest) ≡ parse_parts (part ++ name) rest
unfolding parse_parts
parse_parts-append part [] rest h = ap (λ p. parse_parts p rest) (sym (append-nil part))
parse_parts-append part (c ∷ name) rest h =
    let e : (c == slash) ≡ false = ground (arith, h.0) in
    rw e (parse_parts-append (part ++ (c ∷ [])) name rest h.1)
    ∙ ap (λ p. parse_parts p rest) (append_assoc part (c ∷ []) name)

parse_parts-absolute :
    (part : Bytes) (names : List Bytes)
    → part ≢ []
    → All IsName names
    → parse_parts part (absolute names) ≡ part ∷ names
unfolding parse_parts
parse_parts-absolute [] names p h = absurd (p refl)
parse_parts-absolute (c ∷ part) [] p h = refl
parse_parts-absolute (c ∷ part) (name ∷ names) p h =
    ap (◌∷◌ (c ∷ part)) (
      parse_parts-append [] name (absolute names) h.0.1 ∙ parse_parts-absolute name names h.0.0 h.1)

-- Parsing an absolute path of at least one name, the names not empty and without slashes, gives
-- back the names.
pub parse_path-absolute :
    (name : Bytes) (names : List Bytes)
    → All IsName (name ∷ names)
    → parse_path (absolute (name ∷ names)) ≡ done (name ∷ names)
unfolding parse_path
parse_path-absolute name names h =
    ap done (
      parse_parts-append [] name (absolute names) h.0.1 ∙ parse_parts-absolute name names h.0.0 h.1)

pub parse_path-directory_path :
    (names : List Bytes) → All IsName names → parse_path (directory_path names) ≡ done names
unfolding parse_path parse_parts
parse_path-directory_path [] h = refl
parse_path-directory_path (name ∷ names) h = parse_path-absolute name names h

cut_last-name : (name : Bytes) → All (λ c. c ≢ slash) name → cut_last name ≡ none
unfolding cut_last
cut_last-name [] h = refl
cut_last-name (c ∷ name) h =
    let e : (c == slash) ≡ false = ground (arith, h.0) in rw (cut_last-name name h.1, e) refl

cut_last-append :
    (dir name : Bytes)
    → All (λ c. c ≢ slash) name
    → cut_last (dir ++ slash ∷ name) ≡ some (dir, name)
unfolding cut_last
cut_last-append [] name h = rw (cut_last-name name h) refl
cut_last-append (c ∷ dir) name h = rw (cut_last-append dir name h) refl

absolute-append :
    (names : List Bytes) (name : Bytes)
    → absolute (names ++ name ∷ []) ≡ absolute names ++ slash ∷ name
absolute-append [] name = ap (◌∷◌ slash) (append-nil name)
absolute-append (n ∷ names) name =
    ap (λ p. slash ∷ n ++ p) (absolute-append names name)
    ∙ ap (◌∷◌ slash) (sym (append_assoc n (absolute names) (slash ∷ name)))

cut-length : (dir name path : Bytes) → name ≢ [] → length path < 2 → dir ++ slash ∷ name ≢ path
cut-length dir [] path h k e = absurd (h refl)
cut-length dir (c ∷ name) path h k e =
    absurd (omega (arith, ap (length {A = ℕ}) e, length-append dir (slash ∷ c ∷ name)))

pub not_equal : (a b : Bytes) → a ≢ b → bytes_eq a b ≡ false
not_equal a b h = elim (Bool-cases (bytes_eq a b)) [
  | inl e ↦ absurd (h (bytes_eq→eq a b e))
  | inr e ↦ e
]

split_parent_child-cut :
    (dir name : Bytes)
    → IsName name
    → split_parent_child (dir ++ slash ∷ name) ≡ split_at (dir ++ slash ∷ name) (some (dir, name))
unfolding split_parent_child
split_parent_child-cut dir name k =
    let path = dir ++ slash ∷ name in
    let e = not_equal path (codes "/") (cut-length dir name (codes "/") k.0 (omega arith)) in
    let e' = not_equal path [] (cut-length dir name [] k.0 (omega arith)) in
    rw (e, e', cut_last-append dir name k.1) refl

-- The parent and the name of an absolute path of names that are not empty and without slashes are
-- the path of all names but the last, "/" where there is none, and the last name.
pub split_parent_child-absolute :
    (names : List Bytes) (name : Bytes)
    → All IsName names
    → IsName name
    → split_parent_child (absolute (names ++ name ∷ [])) ≡ (directory_path names, name)
split_parent_child-absolute [] name h k =
    ap split_parent_child (absolute-append [] name) ∙ split_parent_child-cut [] name k
split_parent_child-absolute (n ∷ names) name h k =
    ap split_parent_child (absolute-append (n ∷ names) name)
    ∙ split_parent_child-cut (absolute (n ∷ names)) name k
