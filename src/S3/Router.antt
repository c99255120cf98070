-- ===== src/S3/Router.antt =====
-- `S3Router` of include/nebulastore/protocol/s3_router.h: the bucket, the key, the parameters and
-- the operation of a request. `scan_hex` stands for `sscanf(text, "%x", &hex) == 1`, of the C
-- library: the number that it reads, if it reads one.
pub mod Decoding
pub mod Query
pub mod Operation
use nimbus_store.Base.{
  ℕ, zero, suc, ◌+◌, ◌-◌, ◌%◌, [], ◌∷◌, ◌++◌, Bool, true, false, not, ◌&&◌, Option, none, some,
  length, take, drop, ltb, ◌==◌, if◌then◌else◌, is_some,
}
use nimbus_store.Bytes.{Bytes, codes, bytes_eq}
use nimbus_store.OrderedMap.{Map, insert, find}
use nimbus_store.S3.Types.{S3Request, S3Op, get_header, text_or_empty}

-- `s.find(c)`: the first position of a character
unfoldable pub find_char : ℕ → Bytes → Option ℕ
find_char c [] = none
find_char c (x ∷ s) =
    if x == c then some 0 else elim (find_char c s) [ none ↦ none | some i ↦ some (suc i) ]

abbrev plus_space : ℕ → ℕ
plus_space c = if c == b'+' then b' ' else c

-- the path without the query string, and the query string if there is one
unfoldable pub split_query : Bytes → Bytes → Bytes × Bytes
split_query uri old = elim (find_char b'?' uri) [
  | none ↦ (uri, old)
  | some query_pos ↦ (take query_pos uri, drop (query_pos + 1) uri)
]

-- `if (!path.empty() && path[0] == '/') path = path.substr(1)`
unfoldable pub without_slash : Bytes → Bytes
without_slash [] = []
without_slash (c ∷ path) = if c == b'/' then path else c ∷ path

-- the key and the value of the parameter that the text begins with
unfoldable pub parameter : Bytes → Option ℕ → Option ℕ → Bytes × Bytes
parameter qs none none = (qs, [])
parameter qs none (some amp_pos) = (take amp_pos qs, [])
parameter qs (some eq_pos) none = (take eq_pos qs, drop (eq_pos + 1) qs)
parameter qs (some eq_pos) (some amp_pos) =
    if ltb eq_pos amp_pos
    then (take eq_pos qs, take (amp_pos - eq_pos - 1) (drop (eq_pos + 1) qs))
    else (take amp_pos qs, [])

-- the operation of a GET without a key, by its parameters
abbrev list_op : Map → S3Op
list_op params =
    if is_some (find (codes "list-type") params)
      && bytes_eq (text_or_empty (find (codes "list-type") params)) (codes "2")
    then S3Op.list_objects_v2
    else S3Op.list_objects

unfoldable pub operation : S3Request → S3Op
operation req =
    let has_bucket = not (bytes_eq req.bucket_name []) in
    let has_key = not (bytes_eq req.object_key []) in
    if bytes_eq req.method (codes "GET")
    then (if not has_bucket
        then S3Op.list_buckets
        else if not has_key
        then list_op req.params
        else S3Op.get_object)
    else if bytes_eq req.method (codes "PUT")
    then (if not has_bucket
        then S3Op.unknown
        else if not has_key
        then S3Op.create_bucket
        else if not (bytes_eq (get_header req (codes "x-amz-copy-source")) [])
        then S3Op.copy_object
        else S3Op.put_object)
    else if bytes_eq req.method (codes "DELETE")
    then (if not has_bucket
        then S3Op.unknown
        else if not has_key
        then S3Op.delete_bucket
        else S3Op.delete_object)
    else if bytes_eq req.method (codes "HEAD")
    then (if not has_bucket
        then S3Op.unknown
        else if not has_key
        then S3Op.head_bucket
        else S3Op.head_object)
    else if bytes_eq req.method (codes "POST")
    then (if is_some (find (codes "uploads") req.params)
        then S3Op.init_multipart
        else if is_some (find (codes "uploadId") req.params)
        then S3Op.complete_multipart
        else req.op)
    else req.op

module _ (scan_hex : Bytes → Option ℕ) where
  -- the loop of `UrlDecode` from one character on
  unfoldable pub url_decode : Bytes → Bytes
  url_decode [] = []
  url_decode (c ∷ []) = plus_space c ∷ []
  url_decode (c ∷ x ∷ []) = plus_space c ∷ url_decode (x ∷ [])
  url_decode (c ∷ x ∷ y ∷ rest) = elim (c == b'%') [
    | true ↦ elim (scan_hex (x ∷ y ∷ [])) [
      | some hex ↦ hex % 256 ∷ url_decode rest
      | none ↦ c ∷ url_decode (x ∷ y ∷ rest)
    ]
    | false ↦ plus_space c ∷ url_decode (x ∷ y ∷ rest)
  ]

  -- the bucket and the key of a path
  unfoldable pub split_path : Bytes → Bytes × Bytes
  split_path path = elim (find_char b'/' path) [
    | none ↦ (url_decode path, [])
    | some slash_pos ↦ (url_decode (take slash_pos path), url_decode (drop (slash_pos + 1) path))
  ]

  unfoldable pub parse_uri : S3Request → S3Request
  unfolding split_query without_slash split_path
  parse_uri req =
      let (path, query) = split_query req.uri req.query_string in
      let (bucket, key) = split_path (without_slash path) in
      record req { query_string = query; bucket_name = bucket; object_key = key }

  unfoldable pub add_param : Bytes × Bytes → Map → Map
  add_param (key, value) params =
      if bytes_eq key [] then params else insert (url_decode key) (url_decode value) params

  -- The loop of `ParseQueryString`, over the text from `pos` on. Each round but the last takes at
  -- least one character, so that the length of the text is enough fuel.
  unfoldable pub parse_params : ℕ → Bytes → Map → Map
  parse_params zero qs params = params
  parse_params (suc fuel) [] params = params
  parse_params (suc fuel) (c ∷ s) params =
      let qs = c ∷ s in
      let params' = add_param (parameter qs (find_char b'=' qs) (find_char b'&' qs)) params in
      elim (find_char b'&' qs) [
        | none ↦ params'
        | some amp_pos ↦ parse_params fuel (drop (amp_pos + 1) qs) params'
      ]

  unfoldable pub parse_query_string : S3Request → S3Request
  parse_query_string req = record req {
    params = parse_params (length req.query_string) req.query_string req.params;
  }

  unfoldable pub determine_operation : S3Request → S3Request
  unfolding operation
  determine_operation req = record req { op = operation req }

  unfoldable pub parse_request : S3Request → S3Request
  unfolding parse_uri parse_query_string determine_operation
  parse_request req = determine_operation (parse_query_string (parse_uri req))
