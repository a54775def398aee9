-- ===== src/FileSystem.antt =====
-- The file system that the store is given, src/pqueue/file_system.h: an interface of operations on
-- a state, and what the store relies on. A read returns a status and, with it, the data.
use Prim.Native.Char.{code}
use Prim.Native.String.{String}
use pqueue.Base.{ℕ, ◌+◌, ◌≤◌, ◌≡◌, ◌≢◌, true, List, [], ◌∷◌, ◌++◌, length, take, drop}
use pqueue.Bytes.{Bytes}
use pqueue.Status.{Status, is_ok}

-- File names are strings of bytes.
abbrev pub Name : Type 0
Name = List ℕ

abbrev pub codes : String → Name
codes String.[] = []
codes (String.◌∷◌ c s) = code c ∷ codes s

pub record FileSystem : Type 1 where
  pub State : Type 0
  pub read_file : Name → State → Status × Bytes
  pub file_size : Name → State → Status × ℕ
  pub write_file : Name → Bytes → State → Status × State
  pub read_at : Name → ℕ → ℕ → State → Status × Bytes
  pub write_at : Name → ℕ → Bytes → State → Status × State
  pub resize_file : Name → ℕ → State → Status × State
  pub remove_file : Name → State → Status × State
  pub list_files : State → Status × List Name
  pub mount : State → Status × State
  pub try_acquire_lock_file : Name → Bytes → State → Status × State
  pub release_lock_file : Name → Bytes → State → Status × State
  pub recover_stale_lock_file : Name → Bytes → State → Status × State
  pub free_bytes : State → ℕ

-- A write that succeeds replaces the file. Whether or not it succeeds, it leaves every other file
-- alone: a power loss in the middle of it can damage the file that is written and no other. A file
-- that can be read has a size.
pub record FileSystemLaws (fs : FileSystem) : Type 0 where
  pub read_written :
      (name : Name) (bytes : Bytes) (s : fs.State)
      → is_ok (fs.write_file name bytes s).0 ≡ true
      → (is_ok (fs.read_file name (fs.write_file name bytes s).1).0 ≡ true)
        × ((fs.read_file name (fs.write_file name bytes s).1).1 ≡ bytes)
  pub read_other :
      (name other : Name) (bytes : Bytes) (s : fs.State)
      → other ≢ name
      → fs.read_file other (fs.write_file name bytes s).1 ≡ fs.read_file other s
  pub size_of_readable :
      (name : Name) (s : fs.State)
      → is_ok (fs.read_file name s).0 ≡ true
      → is_ok (fs.file_size name s).0 ≡ true

-- A write at the end of a file that succeeds appends to it, and no write there touches another
-- file. A read of a part of a file that can be read gives that part, and its size is its length.
pub record AppendLaws (fs : FileSystem) : Type 0 where
  pub read_appended :
      (name : Name) (bytes : Bytes) (s : fs.State)
      → is_ok (fs.read_file name s).0 ≡ true
      → is_ok (fs.write_at name (length (fs.read_file name s).1) bytes s).0 ≡ true
      → let t = (fs.write_at name (length (fs.read_file name s).1) bytes s).1 in
        (is_ok (fs.read_file name t).0 ≡ true)
        × ((fs.read_file name t).1 ≡ (fs.read_file name s).1 ++ bytes)
  pub read_beside :
      (name other : Name) (offset : ℕ) (bytes : Bytes) (s : fs.State)
      → other ≢ name
      → fs.read_file other (fs.write_at name offset bytes s).1 ≡ fs.read_file other s
  pub read_part :
      (name : Name) (offset size : ℕ) (s : fs.State)
      → is_ok (fs.read_file name s).0 ≡ true
      → offset + size ≤ length (fs.read_file name s).1
      → (is_ok (fs.read_at name offset size s).0 ≡ true)
        × ((fs.read_at name offset size s).1 ≡ take size (drop offset (fs.read_file name s).1))
  pub size_is_length :
      (name : Name) (s : fs.State)
      → is_ok (fs.read_file name s).0 ≡ true
      → (fs.file_size name s).1 ≡ length (fs.read_file name s).1
