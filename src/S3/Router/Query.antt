-- ===== src/S3/Router/Query.antt =====
-- The scanning loop of `ParseQueryString` against a plain description: split the text at each
-- "&", cut each piece at its first "=", and store the pairs in order.
use nimbus_store.Base.{
  ℕ, zero, suc, ◌+◌, ◌-◌, ◌≤◌, List, [], ◌∷◌, Option, none, some, ◌≡◌, refl, ap, sym, ◌∙◌, arith,
  length, length-drop, take, take-nil, drop, ltb, tests, Bool-cases, ap₂, ◌==◌, if◌then◌else◌,
  Option-cases, inl, inr,
}
use native.Mathlib.Nat.{suc-add}
use nimbus_store.Bytes.{Bytes, bytes_eq, cmp}
use nimbus_store.OrderedMap.{Map, insert}
use nimbus_store.S3.Router.{find_char, parameter, url_decode, add_param, parse_params}

abbrev onto_head : ℕ → List Bytes → List Bytes
onto_head x [] = (x ∷ []) ∷ []
onto_head x (p ∷ ps) = (x ∷ p) ∷ ps

pub split_on : ℕ → Bytes → List Bytes
split_on c [] = [] ∷ []
split_on c (x ∷ s) = let rest = split_on c s in if x == c then [] ∷ rest else onto_head x rest

abbrev cut_at : Bytes → Option ℕ → Bytes × Bytes
cut_at piece none = (piece, [])
cut_at piece (some e) = (take e piece, drop (e + 1) piece)

pub cut_at_equals : Bytes → Bytes × Bytes
cut_at_equals piece = cut_at piece (find_char b'=' piece)

pub add_pieces : (Bytes → Option ℕ) → List Bytes → Map → Map
add_pieces scan_hex [] params = params
add_pieces scan_hex (p ∷ ps) params =
    let (key, value) = cut_at_equals p in
    add_pieces scan_hex ps (
      if bytes_eq key []
      then params
      else insert (url_decode scan_hex key) (url_decode scan_hex value) params)

split_on-none : (c : ℕ) (s : Bytes) → find_char c s ≡ none → split_on c s ≡ s ∷ []
unfolding find_char split_on
split_on-none c [] h = refl
split_on-none c (x ∷ s) h = ground (arith, split_on-none c s)

split_on-some :
    (c : ℕ) (s : Bytes) (i : ℕ)
    → find_char c s ≡ some i
    → split_on c s ≡ take i s ∷ split_on c (drop (i + 1) s)
unfolding find_char split_on
split_on-some c [] i h = cc
split_on-some c (x ∷ s) zero h = ground arith
split_on-some c (x ∷ s) (suc i) h = rw suc-add (ground (arith, split_on-some c s i))

find_char-take :
    (c : ℕ) (s : Bytes) (a : ℕ)
    → find_char c (take a s)
      ≡ elim (find_char c s) [ none ↦ none | some e ↦ if ltb e a then some e else none ]
unfolding find_char
find_char-take c [] zero = refl
find_char-take c [] (suc a) = refl
find_char-take c (x ∷ s) zero = ground arith
find_char-take c (x ∷ s) (suc a) = ground (arith, find_char-take c s a)

take-take : (e a : ℕ) (s : Bytes) → e ≤ a → take e (take a s) ≡ take e s
take-take zero a s h = refl
take-take (suc e) zero s h = absurd (omega arith)
take-take (suc e) (suc a) [] h = refl
take-take (suc e) (suc a) (x ∷ s) h = ap (◌∷◌ x) (take-take e a s (omega arith))

drop-take : (e a : ℕ) (s : Bytes) → drop e (take a s) ≡ take (a - e) (drop e s)
drop-take zero a s = ap (λ (n : ℕ). take n s) (omega arith)
drop-take (suc e) zero [] = sym (take-nil (0 - suc e))
drop-take (suc e) zero (x ∷ s) =
    let none_left : 0 ≡ 0 - suc e = omega arith in ap (λ (n : ℕ). take n (drop e s)) none_left
drop-take (suc e) (suc a) [] = sym (take-nil (suc a - suc e))
drop-take (suc e) (suc a) (x ∷ s) =
    let same : a - e ≡ suc a - suc e = omega arith in
    drop-take e a s ∙ ap (λ (n : ℕ). take n (drop e s)) same

-- What the scanning code takes for the first parameter is the first piece, cut at its "=".
parameter-none : (qs : Bytes) → parameter qs (find_char b'=' qs) none ≡ cut_at_equals qs
unfolding parameter cut_at_equals
parameter-none qs = ground arith

parameter_inside :
    (qs : Bytes) (e a : ℕ)
    → parameter qs (some e) (some a) ≡ cut_at (take a qs) (if ltb e a then some e else none)
unfolding parameter
parameter_inside qs e a = elim (Bool-cases (ltb e a)) [
  | inl before ↦
      let left : a - e - 1 ≡ a - (e + 1) = omega arith in
      rw before (
        ap₂ {C = Bytes × Bytes} (λ (x y : Bytes). (x, y)) (sym (take-take e a qs (omega tests)))
          (ap (λ (n : ℕ). take n (drop (e + 1) qs)) left ∙ sym (drop-take (e + 1) a qs)))
  | inr after ↦ rw after refl
]

parameter-some :
    (qs : Bytes) (a : ℕ) → parameter qs (find_char b'=' qs) (some a) ≡ cut_at_equals (take a qs)
unfolding parameter cut_at_equals
parameter-some qs a = elim (Option-cases (find_char b'=' qs)) [
  | inl no_eq ↦ rw (find_char-take b'=' qs a) (rw no_eq refl)
  | inr (e, at) ↦ rw (find_char-take b'=' qs a) (rw at (parameter_inside qs e a))
]

add_pieces-end :
    (scan_hex : Bytes → Option ℕ) (params : Map) → add_pieces scan_hex ([] ∷ []) params ≡ params
unfolding add_pieces cut_at_equals find_char cmp
add_pieces-end scan_hex params = refl

-- With as much fuel as the text has characters, `ParseQueryString` stores exactly the pieces
-- between the "&"s in their order, each cut at its first "=", the key and the value decoded by
-- `UrlDecode`; pieces with an empty key are passed over.
pub parse_params-add_pieces :
    (scan_hex : Bytes → Option ℕ) (fuel : ℕ) (qs : Bytes) (params : Map)
    → length qs ≤ fuel
    → parse_params scan_hex fuel qs params ≡ add_pieces scan_hex (split_on b'&' qs) params
unfolding parse_params add_pieces add_param
parse_params-add_pieces scan_hex zero [] params h =
    unfold split_on in sym (add_pieces-end scan_hex params)
parse_params-add_pieces scan_hex zero (c ∷ s) params h = absurd (omega arith)
parse_params-add_pieces scan_hex (suc fuel) [] params h =
    unfold split_on in sym (add_pieces-end scan_hex params)
parse_params-add_pieces scan_hex (suc fuel) (c ∷ s) params h =
    let qs : Bytes = c ∷ s in
    elim (Option-cases (find_char b'&' qs)) [
      | inl last ↦
          rw (last, parse_params)
            (rw (last, split_on-none b'&' qs last)
              (ap (λ (e : Bytes × Bytes). add_param scan_hex e params) (parameter-none qs)))
      | inr (a, at) ↦
          let params' = add_param scan_hex (cut_at_equals (take a qs)) params in
          rw (at, parse_params)
            (rw (at, split_on-some b'&' qs a at)
              (rw (parameter-some qs a) (
                parse_params-add_pieces scan_hex fuel (drop (a + 1) qs) params'
                  (omega (arith, length-drop (a + 1) qs)))))
    ]
