-- ===== src/Metadata/Types.antt =====
-- include/nebulastore/common/types.h: inodes, directory entries, modes and statuses. A function
-- with an out parameter that it writes where it returns `Ok` has a `Result` here.
use nimbus_store.Base.{
  ◌<◌, arith, ℕ, ◌+◌, ◌*◌, ◌/◌, ◌%◌, ◌^◌, [], Bool, true, false, ◌==◌, if◌then◌else◌, ◌≡◌, ◌⊎◌, inl,
  inr, refl, ap,
}
use nimbus_store.Bytes.{Bytes}
use mathlib.Core.Bool.{false≢true}

pub data FileType : Type 0 where
  regular : FileType
  directory : FileType
  symlink : FileType
  -- a value of the underlying `uint32_t` that is no enumerator
  unnamed : ℕ → FileType

abbrev pub is_directory_type : FileType → Bool
is_directory_type directory = true
is_directory_type regular = false
is_directory_type symlink = false
is_directory_type (unnamed n) = false

-- `static_cast<uint32_t>` of a type, and `static_cast<FileType>` of a word
unfoldable pub type_code : FileType → ℕ
type_code regular = 1
type_code directory = 2
type_code symlink = 3
type_code (unnamed n) = n

unfoldable pub type_of_code : ℕ → FileType
type_of_code n =
    if n == 1 then regular else if n == 2 then directory else if n == 3 then symlink else unnamed n

-- A type that an enumerator names.
abbrev pub IsNamed : FileType → Type 0
IsNamed regular = Unit
IsNamed directory = Unit
IsNamed symlink = Unit
IsNamed (unnamed n) = ⊥

pub type_code-lt : (t : FileType) → IsNamed t → type_code t < 2 ^ 32
unfolding type_code
type_code-lt regular h = omega arith
type_code-lt directory h = omega arith
type_code-lt symlink h = omega arith
type_code-lt (unnamed n) h = absurd h

pub type_of_code-type_code : (t : FileType) → IsNamed t → type_of_code (type_code t) ≡ t
unfolding type_of_code type_code
type_of_code-type_code regular h = refl
type_of_code-type_code directory h = refl
type_of_code-type_code symlink h = refl
type_of_code-type_code (unnamed n) h = absurd h

pub record FileMode : Type 0 where
  pub mode : ℕ

-- `mode & 0170000`, the bits 12 to 15
abbrev format_of : FileMode → ℕ
format_of m = m.mode / 2 ^ 12 % 16 * 2 ^ 12

-- the bits 8, 7 and 6
unfoldable pub is_readable : FileMode → Bool
is_readable m = m.mode / 2 ^ 8 % 2 == 1

unfoldable pub is_writable : FileMode → Bool
is_writable m = m.mode / 2 ^ 7 % 2 == 1

unfoldable pub is_executable : FileMode → Bool
is_executable m = m.mode / 2 ^ 6 % 2 == 1

unfoldable pub is_regular : FileMode → Bool
is_regular m = format_of m == 2 ^ 15

unfoldable pub is_symlink : FileMode → Bool
is_symlink m = format_of m == 2 ^ 15 + 2 ^ 13

unfoldable pub is_directory : FileMode → Bool
is_directory m = format_of m == 2 ^ 14

-- `mode | 0040000`, the bit 14
unfoldable pub directory_mode : FileMode → FileMode
directory_mode m =
    if m.mode / 2 ^ 14 % 2 == 1 then m else record { mode = (m.mode + 2 ^ 14) % 2 ^ 32 }

-- A mode with the bit of directories set is one of a directory, if no other bit of the format is.
pub directory_mode-is_directory :
    (m : FileMode) → m.mode < 2 ^ 12 → is_directory (directory_mode m) ≡ true
unfolding is_directory directory_mode
directory_mode-is_directory m h = ground arith

pub record InodeAttr : Type 0 where
  pub inode_id : ℕ
  pub mode : FileMode
  pub uid : ℕ
  pub gid : ℕ
  pub size : ℕ
  pub mtime : ℕ
  pub ctime : ℕ
  pub nlink : ℕ

pub record Dentry : Type 0 where
  pub name : Bytes
  pub inode_id : ℕ
  pub type : FileType

pub data ErrorCode : Type 0 where
  ok_code : ErrorCode
  not_found_code : ErrorCode
  permission_denied_code : ErrorCode
  exist_code : ErrorCode
  is_directory_code : ErrorCode
  not_directory_code : ErrorCode
  invalid_argument_code : ErrorCode
  io_error_code : ErrorCode
  no_space_code : ErrorCode

pub record Status : Type 0 where
  pub code : ErrorCode
  pub message : Bytes

abbrev is_ok_code : ErrorCode → Bool
is_ok_code ok_code = true
is_ok_code _ = false

abbrev pub is_not_found_code : ErrorCode → Bool
is_not_found_code not_found_code = true
is_not_found_code _ = false

abbrev pub is_ok : Status → Bool
is_ok s = is_ok_code s.code

abbrev pub fine : Status
fine = record { code = ok_code; message = [] }

abbrev pub not_found : Bytes → Status
not_found msg = record { code = not_found_code; message = msg }

abbrev pub exist : Bytes → Status
exist msg = record { code = exist_code; message = msg }

abbrev pub not_directory : Bytes → Status
not_directory msg = record { code = not_directory_code; message = msg }

abbrev pub invalid_argument : Bytes → Status
invalid_argument msg = record { code = invalid_argument_code; message = msg }

abbrev pub io : Bytes → Status
io msg = record { code = io_error_code; message = msg }

pub data Result {ℓ} (A : Type ℓ) : Type ℓ where
  done : A → Result A
  failed : Status → Result A

-- what follows a call, where it failed and where it did not
abbrev pub after_call {ℓ κ} : {A : Type ℓ} {B : Type κ} → Result A → (Status → B) → (A → B) → B
after_call (done a) f g = g a
after_call (failed s) f g = f s

pub Result-cases {ℓ} :
    {A : Type ℓ} (r : Result A) → ((a : A) × (r ≡ done a)) ⊎ ((s : Status) × (r ≡ failed s))
Result-cases (done a) = inl (a, refl)
Result-cases (failed s) = inr (s, refl)

abbrev is_done {ℓ} : {A : Type ℓ} → Result A → Bool
is_done (done a) = true
is_done (failed s) = false

abbrev value_or {ℓ} : {A : Type ℓ} → A → Result A → A
value_or a (done b) = b
value_or a (failed s) = a

pub failed≢done {ℓ} : {A : Type ℓ} {a : A} {s : Status} → ¬ (failed s ≡ done a)
failed≢done e = false≢true (ap is_done e)

pub done-injective {ℓ} : {A : Type ℓ} {a b : A} → done a ≡ done b → a ≡ b
done-injective {a = a} e = ap (value_or a) e
