-- ===== src/Bytes/Order.antt =====
-- The order on byte strings is a linear order, and prefixes.
use nimbus_store.Base.{[], ◌∷◌, ◌++◌, true, Ordering, ◌≡◌, refl, arith, drop, length}
use nimbus_store.Bytes.{Bytes, cmp, flip, bytes_eq, starts_with}

pub cmp_refl : (a : Bytes) → cmp a a ≡ Ordering.eq
unfolding cmp
cmp_refl [] = refl
cmp_refl (x ∷ xs) = ground (arith, cmp_refl xs)

pub cmp→eq : (a b : Bytes) → cmp a b ≡ Ordering.eq → a ≡ b
unfolding cmp
cmp→eq [] [] h = refl
cmp→eq [] (y ∷ ys) h = cc
cmp→eq (x ∷ xs) [] h = cc
cmp→eq (x ∷ xs) (y ∷ ys) h = ground (arith, cmp→eq xs ys)

pub cmp-flip : (a b : Bytes) → cmp b a ≡ flip (cmp a b)
unfolding cmp
cmp-flip [] [] = refl
cmp-flip [] (y ∷ ys) = refl
cmp-flip (x ∷ xs) [] = refl
cmp-flip (x ∷ xs) (y ∷ ys) = ground (arith, cmp-flip xs ys)

pub cmp_trans :
    (a b c : Bytes) → cmp a b ≡ Ordering.lt → cmp b c ≡ Ordering.lt → cmp a c ≡ Ordering.lt
unfolding cmp
cmp_trans [] [] c h k = cc
cmp_trans [] (y ∷ ys) [] h k = cc
cmp_trans [] (y ∷ ys) (z ∷ zs) h k = refl
cmp_trans (x ∷ xs) [] c h k = cc
cmp_trans (x ∷ xs) (y ∷ ys) [] h k = cc
cmp_trans (x ∷ xs) (y ∷ ys) (z ∷ zs) h k = ground (arith, cmp_trans xs ys zs)

pub bytes_eq_refl : (a : Bytes) → bytes_eq a a ≡ true
bytes_eq_refl a = rw (cmp_refl a)

pub bytes_eq→eq : (a b : Bytes) → bytes_eq a b ≡ true → a ≡ b
bytes_eq→eq a b h = ground (arith, cmp→eq a b)

pub starts_with-append : (p s : Bytes) → starts_with p (p ++ s) ≡ true
unfolding starts_with
starts_with-append [] s = refl
starts_with-append (x ∷ p) s = ground (arith, starts_with-append p s)

pub append-drop-starts_with : (p s : Bytes) → starts_with p s ≡ true → s ≡ p ++ drop (length p) s
unfolding starts_with
append-drop-starts_with [] s h = refl
append-drop-starts_with (x ∷ p) [] h = cc
append-drop-starts_with (x ∷ p) (y ∷ s) h = ground (arith, append-drop-starts_with p s)

-- A common prefix does not count.
pub cmp-append : (p a b : Bytes) → cmp (p ++ a) (p ++ b) ≡ cmp a b
unfolding cmp
cmp-append [] a b = refl
cmp-append (x ∷ p) a b = ground (arith, cmp-append p a b)

-- The order of `p`, or that of what follows where they are equal.
abbrev pub and_then : Ordering → Ordering → Ordering
and_then Ordering.eq o = o
and_then Ordering.lt o = Ordering.lt
and_then Ordering.gt o = Ordering.gt

pub cmp-append-append :
    (p q a b : Bytes) → length p ≡ length q → cmp (p ++ a) (q ++ b) ≡ and_then (cmp p q) (cmp a b)
unfolding cmp
cmp-append-append [] [] a b h = refl
cmp-append-append [] (y ∷ q) a b h = absurd (omega arith)
cmp-append-append (x ∷ p) [] a b h = absurd (omega arith)
cmp-append-append (x ∷ p) (y ∷ q) a b h = ground (arith, cmp-append-append p q a b (omega arith))

pub append_cancel : (p a b : Bytes) → p ++ a ≡ p ++ b → a ≡ b
append_cancel [] a b h = h
append_cancel (x ∷ p) a b h = append_cancel p a b (cc)
