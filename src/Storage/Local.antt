-- ===== src/Storage/Local.antt =====
-- `LocalBackend` of src/storage/local_backend.cpp over a file system, which is the C++ library's
-- (`std::filesystem` and the file streams). A buffer that a `std::vector` can have is taken to find
-- memory.
use nimbus_store.Base.{
  ℕ, ◌^◌, ◌<◌, List, [], ◌∷◌, ◌++◌, Bool, true, false, Option, none, some, take, drop, ltb, ◌==◌,
  if◌then◌else◌, ◌≡◌,
}
use nimbus_store.Bytes.{Bytes, codes}
use nimbus_store.SliceTree.{sub_word}
use nimbus_store.Metadata.Types.{
  Status, Result, done, failed, after_call, fine, io, not_found, invalid_argument,
}
use nimbus_store.Storage.{CapacityInfo}

pub data WriteResult : Type 0 where
  written : WriteResult
  not_opened : WriteResult
  not_written : WriteResult

pub data ReadResult : Type 0 where
  content : Bytes → ReadResult
  no_file : ReadResult
  bad_seek : ReadResult
  read_failed : ReadResult

-- An error code is whether it is the one that the caller passes over (`file_exists`,
-- `no_such_file_or_directory`), and its message.
pub record FileSystem : Type 1 where
  pub Fs : Type 0
  pub create_directories : Fs → Bytes → Fs × Option (Bool × Bytes)
  -- A file opened for writing, written and closed: what the stream says before it is closed, while
  -- bytes may stand in its buffer, and whether all of them got to the file at the end, which the
  -- stream is not asked for.
  pub write_file : Fs → Bytes → Bytes → Fs × WriteResult × Bool
  pub read_file : Fs → Bytes → ReadResult
  -- at most so many bytes from an offset on
  pub read_at : Fs → Bytes → ℕ → ℕ → ReadResult
  pub remove : Fs → Bytes → Fs × Option (Bool × Bytes)
  -- `none` is an error
  pub exists : Fs → Bytes → Option Bool
  -- capacity and available bytes
  pub space : Fs → Bytes → Option (ℕ × ℕ)
  pub parent_path : Bytes → Bytes
  -- whether two paths name one file, as "a/b" and "a//b" or two links do
  pub equivalent : Fs → Bytes → Bytes → Bool

-- What is relied on: a file that was written, up to its end, is read back, from every offset of a
-- file; the files that other paths name stay; and a directory that is made changes no file.
pub record IsFileSystem (f : FileSystem) : Type 0 where
  pub file_read :
      (s : f.Fs) (path bytes : Bytes)
      → (f.write_file s path bytes).1 ≡ written
      → (f.write_file s path bytes).2 ≡ true
      → f.read_file (f.write_file s path bytes).0 path ≡ content bytes
  pub file_read_at :
      (s : f.Fs) (path bytes : Bytes) (offset size : ℕ)
      → offset < 2 ^ 63
      → size < 2 ^ 63
      → (f.write_file s path bytes).1 ≡ written
      → (f.write_file s path bytes).2 ≡ true
      → f.read_at (f.write_file s path bytes).0 path offset size
        ≡ content (take size (drop offset bytes))
  pub file_others :
      (s : f.Fs) (path bytes other : Bytes)
      → f.equivalent s other path ≡ false
      → f.read_file (f.write_file s path bytes).0 other ≡ f.read_file s other
  pub directory_files :
      (s : f.Fs) (path other : Bytes)
      → f.read_file (f.create_directories s path).0 other ≡ f.read_file s other

-- `path.back() != '/'` of a path that is not empty
abbrev ends_open : Bytes → Bool
ends_open [] = false
ends_open (c ∷ []) = if c == 47 then false else true
ends_open (c ∷ d ∷ path) = ends_open (d ∷ path)

module _ (f : FileSystem) (data_dir : Bytes) where
  unfoldable pub key_to_path : Bytes → Bytes
  key_to_path key = (if ends_open data_dir then data_dir ++ codes "/" else data_dir) ++ key

  abbrev pub put_status : Bytes → WriteResult → Status
  put_status path written = fine
  put_status path not_opened = io (codes "Failed to open file: " ++ path)
  put_status path not_written = io (codes "Failed to write file: " ++ path)

  -- whether the end of the writing got to the file is not looked at
  abbrev pub written_file : Bytes → f.Fs × WriteResult × Bool → Status × f.Fs
  written_file path (s, result, flushed) = (put_status path result, s)

  abbrev pub after_directories : Bytes → Bytes → f.Fs × Option (Bool × Bytes) → Status × f.Fs
  after_directories path bytes (s, some (false, message)) =
      (io (codes "Failed to create directory: " ++ message), s)
  after_directories path bytes (s, some (true, message)) =
      written_file path (f.write_file s path bytes)
  after_directories path bytes (s, none) = written_file path (f.write_file s path bytes)

  unfoldable pub put : f.Fs → Bytes → Bytes → Status × f.Fs
  put s key bytes =
      let path = key_to_path key in
      after_directories path bytes (f.create_directories s (f.parent_path path))

  abbrev read_result : Bytes → Bytes → ReadResult → Result Bytes
  read_result key path (content bytes) = done bytes
  read_result key path no_file = failed (not_found (codes "File not found: " ++ key))
  read_result key path bad_seek = failed (io (codes "Failed to read file: " ++ path))
  read_result key path read_failed = failed (io (codes "Failed to read file: " ++ path))

  unfoldable pub get : f.Fs → Bytes → Result Bytes
  get s key = read_result key (key_to_path key) (f.read_file s (key_to_path key))

  abbrev deleted_file : f.Fs × Option (Bool × Bytes) → Status × f.Fs
  deleted_file (s, none) = (fine, s)
  deleted_file (s, some (true, message)) = (fine, s)
  deleted_file (s, some (false, message)) = (io (codes "Failed to delete file: " ++ message), s)

  unfoldable pub delete : f.Fs → Bytes → Status × f.Fs
  delete s key = deleted_file (f.remove s (key_to_path key))

  abbrev exists_status : Option Bool → Status
  exists_status none = io (codes "Failed to check file existence")
  exists_status (some true) = fine
  exists_status (some false) = not_found (codes "File not found")

  unfoldable pub exists : f.Fs → Bytes → Status
  exists s key = exists_status (f.exists s (key_to_path key))

  -- A buffer of 2^63 bytes or more is longer than a `std::vector` can be, and throws.
  abbrev buffer_read : ℕ → Result Bytes → Option (Result Bytes)
  buffer_read size read = if ltb size (2 ^ 63) then some read else none

  -- A file that is not there and an offset that cannot be reached are answered before the buffer.
  abbrev range_result : Bytes → ℕ → ReadResult → Option (Result Bytes)
  range_result key size (content bytes) = buffer_read size (done bytes)
  range_result key size no_file = some (failed (not_found (codes "File not found: " ++ key)))
  range_result key size bad_seek = some (failed (invalid_argument (codes "Invalid offset")))
  range_result key size read_failed =
      buffer_read size (failed (io (codes "Failed to read file range")))

  -- `none` where the call throws
  unfoldable pub get_range : f.Fs → Bytes → ℕ → ℕ → Option (Result Bytes)
  get_range s key offset size = range_result key size (f.read_at s (key_to_path key) offset size)

  -- The loop stops at the first key that fails.
  unfoldable pub batch_get : f.Fs → List Bytes → Result (List Bytes)
  unfolding get
  batch_get s [] = done []
  batch_get s (key ∷ keys) =
      let rest = batch_get s keys in
      after_call (get s key) failed (λ bytes. after_call rest failed (λ more. done (bytes ∷ more)))

  abbrev health_status : Option Bool → Status
  health_status (some true) = fine
  health_status (some false) = io (codes "Data directory not accessible")
  health_status none = io (codes "Data directory not accessible")

  unfoldable pub health_check : f.Fs → Status
  health_check s = health_status (f.exists s data_dir)

  abbrev capacity_of : Option (ℕ × ℕ) → Result CapacityInfo
  capacity_of none = failed (io (codes "Failed to get disk space"))
  capacity_of (some (capacity, available)) = done (record {
    total_bytes = capacity;
    used_bytes = sub_word capacity available;
    available_bytes = available;
  })

  unfoldable pub get_capacity : f.Fs → Result CapacityInfo
  get_capacity s = capacity_of (f.space s data_dir)
