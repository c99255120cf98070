-- ===== src/Storage/Files.antt =====
-- What src/storage/local_backend.cpp reads after a write.
use nimbus_store.Base.{Bool}
use nimbus_store.Bytes.{Bytes}
use nimbus_store.Storage.Local.{FileSystem, IsFileSystem, key_to_path}

module _ (f : FileSystem) (o : IsFileSystem f) (data_dir : Bytes) where
  -- the state in which a put writes its file
  abbrev pub with_directories : f.Fs → Bytes → f.Fs
  with_directories s key = (f.create_directories s (f.parent_path (key_to_path f data_dir key))).0
