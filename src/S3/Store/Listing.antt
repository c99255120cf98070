-- ===== src/S3/Store/Listing.antt =====
-- Listings: what `ListObjects` and `ListBuckets` return, over any backend that is an ordered map.
use nimbus_store.Base.{
  ℕ, zero, suc, ◌+◌, ◌*◌, ◌^◌, ◌<◌, List, [], ◌∷◌, ◌++◌, Bool, true, false, not, ◌&&◌, ◌||◌, ltb,
  ◌≡◌, refl, ap, ap₂, sym, ◌∙◌, arith, length, take, take-nil, All, drop, keep, if◌then◌else◌,
}
use nimbus_store.Base.Int.{ℤ, pos, negsuc, double, reached}
use nimbus_store.Bytes.{Bytes, codes, starts_with, bytes_eq, is_lt, cmp}
use nimbus_store.Bytes.Order.{bytes_eq→eq}
use nimbus_store.OrderedMap.{Map, seek_from, Sorted}
use nimbus_store.OrderedMap.Prefix.{while_prefix, while_prefix-seek_from}
use nimbus_store.S3.Backend.{MetadataBackend, scan_loop}
use nimbus_store.S3.Backend.Laws.{IsOrderedBackend}
use nimbus_store.S3.Meta.{ObjectMeta, empty_object_meta}
use nimbus_store.S3.Store.{get_object, passed_over, collect_objects, list_objects}

-- the entries that a scan stops at: at least one is returned, whatever the limit
abbrev pub at_least_one : ℤ → ℕ
at_least_one (pos zero) = 1
at_least_one (pos (suc n)) = suc n
at_least_one (negsuc n) = 1

reached_now :
    (limit : ℤ) (size : ℕ) → at_least_one limit ≡ suc size → reached limit (suc size) ≡ true
reached_now (pos zero) size h = ground arith
reached_now (pos (suc n)) size h = ground arith
reached_now (negsuc n) size h = refl

reached_later :
    (limit : ℤ) (size left : ℕ)
    → at_least_one limit ≡ size + suc (suc left)
    → reached limit (suc size) ≡ false
reached_later (pos zero) size left h = absurd (omega arith)
reached_later (pos (suc n)) size left h = ground arith
reached_later (negsuc n) size left h = absurd (omega arith)

at_least_one-pos : (limit : ℤ) → (n : ℕ) × (at_least_one limit ≡ suc n)
at_least_one-pos (pos zero) = (0, refl)
at_least_one-pos (pos (suc n)) = (n, refl)
at_least_one-pos (negsuc n) = (0, refl)

-- the `int`s from -2^30 to 2^30 - 1
abbrev pub IsDoubled : ℤ → Type 0
IsDoubled (pos n) = n < 2 ^ 30
IsDoubled (negsuc n) = n < 2 ^ 30

-- the entries that `ListObjects` looks at
abbrev pub scanned : ℤ → ℕ
scanned (pos zero) = 1
scanned (pos (suc n)) = suc n + suc n
scanned (negsuc n) = 1

at_least_one-double : (k : ℤ) → IsDoubled k → at_least_one (double k) ≡ scanned k
at_least_one-double (pos zero) h = refl
at_least_one-double (pos (suc n)) h =
    let small : ltb (suc n) (2 ^ 30) ≡ true = ground arith in
    let twice : suc n * 2 ≡ suc (n + suc n) = omega arith in rw (small, twice) (omega arith)
at_least_one-double (negsuc n) h = let small : ltb n (2 ^ 30) ≡ true = ground arith in rw small refl

scan_loop_from :
    (p : Bytes) (limit : ℤ) (size left : ℕ) (m : Map)
    → at_least_one limit ≡ size + suc left
    → scan_loop p limit size m ≡ take (suc left) (while_prefix p m)
unfolding scan_loop while_prefix
scan_loop_from p limit size left [] h = refl
scan_loop_from p limit size zero (e ∷ m) h = ground (arith, reached_now limit size (omega arith))
scan_loop_from p limit size (suc left) (e ∷ m) h = ground (
  arith,
  reached_later limit size left (omega arith),
  scan_loop_from p limit (suc size) left m (omega arith),
)

-- `Scan` returns the first entries with the prefix, in order.
pub scan_loop_lem :
    (p : Bytes) (limit : ℤ) (m : Map)
    → Sorted m
    → scan_loop p limit 0 (seek_from p m)
      ≡ take (at_least_one limit) (keep (λ e. starts_with p e.0) m)
scan_loop_lem p limit m s =
    let (n, e) = at_least_one-pos limit in
    scan_loop_from p limit 0 n (seek_from p m) (omega arith)
    ∙ ap₂ (λ (k : ℕ) (l : Map). take k l) (sym e) (while_prefix-seek_from p m s)

abbrev pub scan_prefix : Bytes → Bytes
scan_prefix bucket = codes "OL:" ++ (bucket ++ codes "/")

module _ (b : MetadataBackend) (o : IsOrderedBackend b) (s : b.State)
    (bucket prefix marker : Bytes) where
  -- Whether a key belongs in the listing: it is after the marker and has the prefix, where these
  -- are not empty.
  abbrev pub wanted : Bytes → Bool
  wanted key = (bytes_eq marker [] || is_lt (cmp marker key)) && starts_with prefix key

  -- the records of entries of the listings, those that are there and can be decoded
  pub records : ℕ → Map → List ObjectMeta
  records skip [] = []
  records skip ((key, _) ∷ kvs) =
      let (done, meta) = get_object b s bucket (drop skip key) empty_object_meta in
      if done then meta ∷ records skip kvs else records skip kvs

  abbrev pub select : ℕ → Map → List ObjectMeta
  select skip m = records skip (keep (λ e. wanted (drop skip e.0)) m)

  starts_with-nil : (key : Bytes) → bytes_eq prefix [] ≡ true → starts_with prefix key ≡ true
  unfolding starts_with
  starts_with-nil key h = rw (bytes_eq→eq prefix [] h) refl

  passed_over-wanted : (key : Bytes) → passed_over prefix marker key ≡ not (wanted key)
  unfolding passed_over
  passed_over-wanted key = ground (arith, starts_with-nil key)

  collect-select :
      (max_keys : ℤ) (skip size left : ℕ) (m : Map)
      → at_least_one max_keys ≡ size + suc left
      → collect_objects b s bucket prefix marker max_keys skip size m
        ≡ take (suc left) (select skip m)
  unfolding collect_objects records
  collect-select max_keys skip size left [] h = refl
  collect-select max_keys skip size zero ((key, w) ∷ m) h = ground (
    arith,
    passed_over-wanted (drop skip key),
    reached_now max_keys size (omega arith),
    collect-select max_keys skip size zero m h,
  )
  collect-select max_keys skip size (suc left) ((key, w) ∷ m) h = ground (
    arith,
    passed_over-wanted (drop skip key),
    reached_later max_keys size left (omega arith),
    collect-select max_keys skip (suc size) left m (omega arith),
    collect-select max_keys skip size (suc left) m h,
  )

  -- Over a metadata backend that is an ordered map and for a `max_keys` from -2^30 to 2^30 - 1, of
  -- which the double is an `int`, `ListObjects` looks at the first `2 * max_keys` entries of the
  -- bucket, in the order of their keys (at the first alone where `max_keys` is not positive). It
  -- returns, in this order, the decoded records of those that are after the marker and have the
  -- prefix, where these are not empty, the first `max_keys` of them (the first alone where
  -- `max_keys` is not positive).
  pub list_objects_lem :
      (max_keys : ℤ)
      → IsDoubled max_keys
      → list_objects b s bucket prefix marker max_keys
        ≡ take (at_least_one max_keys) (
            select (length (scan_prefix bucket)) (
              take
                (scanned max_keys)
                (keep (λ e. starts_with (scan_prefix bucket) e.0) (o.entries s))))
  unfolding list_objects
  list_objects_lem max_keys fits =
      let (n, e) = at_least_one-pos max_keys in
      let skip = length (scan_prefix bucket) in
      let seen : Map =
        take (scanned max_keys) (keep (λ e. starts_with (scan_prefix bucket) e.0) (o.entries s)) in
      ap (collect_objects b s bucket prefix marker max_keys skip 0) (
        o.scan_entries s (scan_prefix bucket) (double max_keys)
        ∙ scan_loop_lem (scan_prefix bucket) (double max_keys) (o.entries s) (o.sorted s)
        ∙ ap (λ (k : ℕ). take k (keep (λ e. starts_with (scan_prefix bucket) e.0) (o.entries s)))
            (at_least_one-double max_keys fits))
      ∙ collect-select max_keys skip 0 n seen (omega arith)
      ∙ ap (λ (k : ℕ). take k (select skip seen)) (sym e)

  records_none :
      (skip : ℕ) (m : Map)
      → All (λ e. wanted (drop skip e.0) ≡ false) m
      → keep (λ e. wanted (drop skip e.0)) m ≡ []
  records_none skip [] h = refl
  records_none skip (e ∷ m) h = rw h.0 (records_none skip m h.1)

  -- If the first `2 * max_keys` entries of the bucket, for a `max_keys` from -2^30 to 2^30 - 1, are
  -- all up to the marker or without the prefix, `ListObjects` returns nothing, whatever entries
  -- follow them.
  pub list_objects_starves :
      (max_keys : ℤ)
      → IsDoubled max_keys
      → All
          (λ e. wanted (drop (length (scan_prefix bucket)) e.0) ≡ false)
          (take (scanned max_keys) (keep (λ e. starts_with (scan_prefix bucket) e.0) (o.entries s)))
      → list_objects b s bucket prefix marker max_keys ≡ []
  unfolding records
  list_objects_starves max_keys fits h =
      list_objects_lem max_keys fits
      ∙ ap (λ m. take (at_least_one max_keys) (records (length (scan_prefix bucket)) m))
          (records_none (length (scan_prefix bucket)) _ h)
      ∙ take-nil (at_least_one max_keys)
