-- ===== src/S3/Platform.antt =====
-- What the S3 handlers call outside the repository: the file system (`std::filesystem` and the
-- file streams), the MD5 of OpenSSL, and the C++ library's conversions of numbers and times.
use nimbus_store.Base.{ℕ, Bool, true, Option, none, some, ◌≡◌}
use nimbus_store.Base.Int.{ℤ}
use nimbus_store.Bytes.{Bytes}

pub record Platform : Type 1 where
  pub Fs : Type 0
  -- false where the call throws
  pub create_directories : Fs → Bytes → Fs × Bool
  pub remove : Fs → Bytes → Fs × Bool
  pub remove_all : Fs → Bytes → Fs × Bool
  -- a file that is opened for writing, written and closed; false where the stream failed
  pub write_file : Fs → Bytes → Bytes → Fs × Bool
  -- the content of a file, if it can be opened
  pub read_file : Fs → Bytes → Option Bytes
  pub parent_path : Bytes → Bytes
  pub md5 : Bytes → Bytes
  pub rfc822_time : ℕ → Bytes
  pub iso8601_time : ℕ → Bytes
  pub decimal : ℕ → Bytes
  pub decimal_int : ℤ → Bytes
  -- `std::stoi`, which may throw
  pub stoi : Bytes → Option ℤ
  -- `sscanf` with "%x"
  pub scan_hex : Bytes → Option ℕ

-- A file that was written without a failure is read back; one that was removed is not there.
pub record IsFileStore (p : Platform) : Type 1 where
  pub read-write :
      (fs : p.Fs) (path content : Bytes)
      → (p.write_file fs path content).1 ≡ true
      → p.read_file (p.write_file fs path content).0 path ≡ some content
  pub read-remove :
      (fs : p.Fs) (path : Bytes)
      → (p.remove fs path).1 ≡ true
      → p.read_file (p.remove fs path).0 path ≡ none
