-- ===== src/Gateway/Requests.antt =====
-- GET in src/protocol/s3_gateway.cpp, from the request's path to the text of the answer.
use nimbus_store.Base.{ℕ, ◌∷◌, All, ◌≡◌, ◌≢◌, refl, Bool-cases, inl, inr}
use nimbus_store.Bytes.{Bytes, codes}
use nimbus_store.Metadata.Types.{Status, failed, Result-cases}
use nimbus_store.Metadata.Store.{MetadataStore}
use nimbus_store.Metadata.Interface.{metadata_service}
use nimbus_store.Storage.{StorageBackend}
use nimbus_store.SliceTree.{sub_word}
use nimbus_store.Namespace.{slash}
use nimbus_store.Namespace.Service
use nimbus_store.Namespace.Service.{World, posix_path_of, covers}
use nimbus_store.Namespace.Reads.{read_fails}
use nimbus_store.Gateway.Paths.{object_path, parse_s3_path-object_path}
use nimbus_store.Gateway.Operations.{get_object}
use nimbus_store.Gateway.Handlers.{is_not_found, handle_get, failure, error_response}

failure-error_response :
    (code message : Bytes) (s : Status)
    → (c : Bytes) × (m : Bytes) × (failure code message s ≡ error_response c m)
failure-error_response code message s = elim (Bool-cases (is_not_found s)) [
  | inl e ↦ (code, message, rw e refl)
  | inr e ↦ (codes "InternalError", s.message, rw e refl)
]

get_object-fails :
    (m : MetadataStore) (sb : StorageBackend) (to_string : ℕ → Bytes) (default_bucket : Bytes)
    (w : World (metadata_service m) sb to_string default_bucket) (bucket key : Bytes)
    → (s : Status) × (get_object (metadata_service m) sb to_string default_bucket w bucket key 0 0
        ≡ failed s)
unfolding get_object
get_object-fails m sb to_string default_bucket w bucket key =
    elim (Result-cases (
      Service.get_attr (metadata_service m) sb to_string default_bucket w
        (object_path bucket key))) [
          | inr (s, e) ↦ (s, rw e refl)
          | inl (attr, e) ↦ rw e (
              read_fails m sb to_string default_bucket w (object_path bucket key) 0
                (sub_word attr.size 0))
        ]

-- Over `MetadataServiceImpl`, whatever its state, the storage backend and the store below it, a GET
-- of any key in any bucket, of a name without slashes, answers with an error in XML.
pub get_fails :
    (m : MetadataStore) (sb : StorageBackend) (to_string hex format_timestamp : ℕ → Bytes)
    (default_bucket : Bytes) (w : World (metadata_service m) sb to_string default_bucket) (b : ℕ)
    (bucket : Bytes) (k : ℕ) (key : Bytes)
    → All (λ c. c ≢ slash) (b ∷ bucket)
    → (code : Bytes) × (message : Bytes) × (handle_get
          (metadata_service m)
          sb
          to_string
          hex
          format_timestamp
          default_bucket
          w
          (object_path (b ∷ bucket) (k ∷ key))
        ≡ error_response code message)
unfolding handle_get
get_fails m sb to_string hex format_timestamp default_bucket w b bucket k key named =
    rw (parse_s3_path-object_path b bucket (k ∷ key) named) (
      let (s, e) = get_object-fails m sb to_string default_bucket w (b ∷ bucket) (k ∷ key) in
      rw e
        (failure-error_response (codes "NoSuchKey") (codes "The specified key does not exist.") s))
