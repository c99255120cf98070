-- ===== src/Gateway/Operations.antt =====
-- The operations of `S3Gateway` in src/protocol/s3_gateway.cpp. `hex` is the text that a stream
-- with `std::hex` writes for a number, and `to_string` is `std::to_string`.
use nimbus_store.Base.{
  ℕ, ◌+◌, ◌*◌, ◌/◌, ◌%◌, zero, suc, List, [], ◌∷◌, ◌++◌, Bool, true, false, ◌==◌, if◌then◌else◌,
}
use nimbus_store.Bytes.{Bytes, codes}
use nimbus_store.SliceTree.{sub_word}
use nimbus_store.Metadata.Types.{
  Status, Result, done, failed, after_call, fine, io, InodeAttr, Dentry, FileType,
}
use nimbus_store.Metadata.Interface.{MetadataService}
use nimbus_store.Storage.{StorageBackend}
use nimbus_store.Namespace.Service
use nimbus_store.Namespace.Service.{World, write, read, readdir}
use nimbus_store.Gateway.Paths.{object_path}

pub record S3Object : Type 0 where
  pub key : Bytes
  pub size : ℕ
  pub mtime : ℕ
  pub etag : Bytes

-- `^` on the lowest bits of two words
unfoldable pub xor_bits : ℕ → ℕ → ℕ → ℕ
xor_bits zero a b = 0
xor_bits (suc bits) a b = (a + b) % 2 + 2 * xor_bits bits (a / 2) (b / 2)

abbrev pub etag_of : (ℕ → Bytes) → ℕ → ℕ → Bytes
etag_of hex size mtime = codes "\"" ++ (hex (xor_bits 64 size mtime) ++ codes "\"")

abbrev pub is_regular_type : FileType → Bool
is_regular_type FileType.regular = true
is_regular_type _ = false

abbrev pub is_empty : Bytes → Bool
is_empty [] = true
is_empty (c ∷ text) = false

-- `Start` and `Stop`, over whether there is a server; the server's own start may fail
unfoldable pub start : Bool → Bool → Status × Bool
start starts true = (fine, true)
start starts false =
    if starts then (fine, true) else (io (codes "Failed to start S3 gateway HTTP server"), false)

unfoldable pub stop : Bool → Bool
stop server = false

-- `CreateMultipartUpload`: the identity is the clock's number
unfoldable pub create_multipart_upload : (ℕ → Bytes) → ℕ → Bytes → Bytes → Status × Bytes
create_multipart_upload to_string now bucket key = (fine, to_string now)

unfoldable pub complete_multipart_upload : Bytes → Bytes → Bytes → Status
complete_multipart_upload bucket key upload_id = fine

unfoldable pub delete_object : Bytes → Bytes → Status
delete_object bucket key = fine

abbrev pub listed_path : Bytes → Bytes → Bytes
listed_path bucket prefix =
    let path = codes "/" ++ bucket in
    if is_empty prefix then path else path ++ (codes "/" ++ prefix)

abbrev pub listed_object : (ℕ → Bytes) → Bytes → Bytes → InodeAttr → S3Object
listed_object hex prefix name attr = record {
  key = if is_empty prefix then name else prefix ++ (codes "/" ++ name);
  size = attr.size;
  mtime = attr.mtime;
  etag = etag_of hex attr.size attr.mtime;
}

abbrev pub part_path : (ℕ → Bytes) → Bytes → Bytes → Bytes → ℕ → Bytes
part_path to_string bucket key upload_id part_number =
    codes "/"
    ++ (bucket
        ++ (codes "/.uploads/"
            ++ (upload_id ++ (codes "/" ++ (key ++ (codes "." ++ to_string part_number))))))

module _ (ms : MetadataService) (sb : StorageBackend) (to_string : ℕ → Bytes)
    (default_bucket : Bytes) where
  unfoldable pub put_object :
      ℕ
      → World ms sb to_string default_bucket
      → Bytes
      → Bytes
      → Bytes
      → Status × World ms sb to_string default_bucket
  unfolding write
  put_object now w bucket key content =
      write ms sb to_string default_bucket now w (object_path bucket key) content 0

  unfoldable pub get_object :
      World ms sb to_string default_bucket → Bytes → Bytes → ℕ → ℕ → Result Bytes
  unfolding read Service.get_attr
  get_object w bucket key offset size =
      let path = object_path bucket key in
      if size == 0
      then after_call (Service.get_attr ms sb to_string default_bucket w path) failed
          (λ attr. read ms sb to_string default_bucket w path offset (sub_word attr.size offset))
      else read ms sb to_string default_bucket w path offset size

  unfoldable pub head_object :
      World ms sb to_string default_bucket → Bytes → Bytes → Result InodeAttr
  unfolding Service.get_attr
  head_object w bucket key =
      Service.get_attr ms sb to_string default_bucket w (object_path bucket key)

  -- the loop of `ListObjects` over the entries of the directory
  unfoldable pub list_entries :
      (ℕ → Bytes)
      → World ms sb to_string default_bucket
      → Bytes
      → Bytes
      → List Dentry
      → List S3Object
  unfolding Service.get_attr
  list_entries hex w path prefix [] = []
  list_entries hex w path prefix (entry ∷ entries) =
      let rest = list_entries hex w path prefix entries in
      if is_regular_type entry.type
      then after_call
          (Service.get_attr ms sb to_string default_bucket w (path ++ (codes "/" ++ entry.name)))
          (λ s. rest) (λ attr. listed_object hex prefix entry.name attr ∷ rest)
      else rest

  unfoldable pub list_objects :
      (ℕ → Bytes) → World ms sb to_string default_bucket → Bytes → Bytes → Result (List S3Object)
  unfolding list_entries readdir
  list_objects hex w bucket prefix =
      let path = listed_path bucket prefix in
      after_call (readdir ms sb to_string default_bucket w path) failed
        (λ entries. done (list_entries hex w path prefix entries))

  unfoldable pub upload_part :
      ℕ
      → World ms sb to_string default_bucket
      → Bytes
      → Bytes
      → Bytes
      → ℕ
      → Bytes
      → Status × World ms sb to_string default_bucket
  unfolding write
  upload_part now w bucket key upload_id part_number content =
      write ms sb to_string default_bucket now w
        (part_path to_string bucket key upload_id part_number) content 0
