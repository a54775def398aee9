-- ===== src/Examples/Memory.antt =====
-- A file system in memory, as in tools/memory_file_system.h, on which a write of a whole file may be
-- interrupted. The first entry of a name holds.
use pqueue.Base.{
  ℕ, ◌+◌, ◌≤◌, ◌≡◌, ◌≢◌, refl, sym, ap, ◌∙◌, inr, inl, Bool, true, false, List, [], ◌∷◌, ◌++◌,
  Option, none, some, arith, length, take, drop, ltb, ◌==◌, if◌then◌else◌, Bool-cases, ==_refl,
  true≢false, append-nil, le→not_ltb, drop_nil, drop-add,
}
use pqueue.Bytes.{Bytes}
use pqueue.Status.{Status, StatusCode, success, failure, no_op_status, is_ok}
use pqueue.FileSystem.{FileSystem, FileSystemLaws, AppendLaws, Name}
use pqueue.Store.Names.{name_eq}

abbrev pub Files : Type 0
Files = List (Name × Bytes)

abbrev pub lookup : Name → Files → Option Bytes
lookup name [] = none
lookup name ((key, bytes) ∷ files) = if name_eq key name then some bytes else lookup name files

abbrev pub read_of : Option Bytes → Status × Bytes
read_of none = (failure StatusCode.read_failed, [])
read_of (some bytes) = (success, bytes)

abbrev pub size_of : Option Bytes → Status × ℕ
size_of none = (failure StatusCode.read_failed, 0)
size_of (some bytes) = (success, length bytes)

-- An interrupted write leaves the first five bytes.
abbrev pub written : Bool → Name → Bytes → Files → Status × Files
written true name bytes files = (failure StatusCode.write_failed, (name, take 5 bytes) ∷ files)
written false name bytes files = (success, (name, bytes) ∷ files)

abbrev without : Name → Files → Files
without name [] = []
without name ((key, bytes) ∷ files) =
    if name_eq key name then without name files else (key, bytes) ∷ without name files

abbrev names : Files → List Name
names [] = []
names ((key, bytes) ∷ files) = key ∷ names files

abbrev slice_of : ℕ → ℕ → Option Bytes → Status × Bytes
slice_of offset size none = (failure StatusCode.read_failed, [])
slice_of offset size (some bytes) =
    if ltb (length bytes) (offset + size)
    then (failure StatusCode.read_failed, [])
    else (success, take size (drop offset bytes))

abbrev patched : Name → ℕ → Bytes → Option Bytes → Files → Status × Files
patched name offset bytes none files = (failure StatusCode.write_failed, files)
patched name offset bytes (some old) files =
    (success, (name, take offset old ++ (bytes ++ drop (offset + length bytes) old)) ∷ files)

abbrev bytes_of : Option Bytes → Bytes
bytes_of none = []
bytes_of (some bytes) = bytes

abbrev pub memory : Bool → FileSystem
memory interrupted = record {
  State = Files;
  read_file = λ name files. read_of (lookup name files);
  file_size = λ name files. size_of (lookup name files);
  write_file = written interrupted;
  read_at = λ name offset size files. slice_of offset size (lookup name files);
  write_at = λ name offset bytes files. patched name offset bytes (lookup name files) files;
  resize_file =
      λ name size files. (success, (name, take size (bytes_of (lookup name files))) ∷ files);
  remove_file = λ name files. (success, without name files);
  list_files = λ files. (success, names files);
  mount = λ files. (success, files);
  try_acquire_lock_file = λ name bytes files. (success, files);
  release_lock_file = λ name bytes files. (success, files);
  recover_stale_lock_file = λ name bytes files. (no_op_status, files);
  free_bytes = λ files. 0x100_0000;
}

pub name_eq_refl : (name : Name) → name_eq name name ≡ true
name_eq_refl [] = refl
name_eq_refl (x ∷ xs) = rw (==_refl x) (name_eq_refl xs)

pub name_eq_sound : (a b : Name) → name_eq a b ≡ true → a ≡ b
name_eq_sound [] [] e = refl
name_eq_sound [] (y ∷ ys) e = absurd (true≢false (sym e))
name_eq_sound (x ∷ xs) [] e = absurd (true≢false (sym e))
name_eq_sound (x ∷ xs) (y ∷ ys) e = elim (Bool-cases (x == y)) [
  | inl same ↦
      let same' : x ≡ y = ground (arith, same) in
      rw same' (ap (λ t. y ∷ t) (name_eq_sound xs ys (rw same at e)))
  | inr differ ↦ absurd (true≢false (sym (rw differ at e)))
]

pub name_eq_differ : (a b : Name) → b ≢ a → name_eq a b ≡ false
name_eq_differ a b h = elim (Bool-cases (name_eq a b)) [
  | inl e ↦ absurd (h (sym (name_eq_sound a b e)))
  | inr e ↦ e
]

size_of-read_of : (o : Option Bytes) → is_ok (read_of o).0 ≡ true → is_ok (size_of o).0 ≡ true
size_of-read_of none e = absurd (true≢false (sym e))
size_of-read_of (some bytes) e = refl

pub memory-FileSystemLaws : (interrupted : Bool) → FileSystemLaws (memory interrupted)
memory-FileSystemLaws true = record {
  read_written = λ name bytes s e. absurd (true≢false (sym e));
  read_other = λ name other bytes s h. rw (name_eq_differ name other h) refl;
  size_of_readable = λ name s e. size_of-read_of (lookup name s) e;
}
memory-FileSystemLaws false = record {
  read_written = λ name bytes s e. rw (name_eq_refl name) (refl, refl);
  read_other = λ name other bytes s h. rw (name_eq_differ name other h) refl;
  size_of_readable = λ name s e. size_of-read_of (lookup name s) e;
}

all_dropped : (bytes : Bytes) → drop (length bytes) bytes ≡ []
all_dropped [] = refl
all_dropped (x ∷ bytes) = all_dropped bytes

all_taken : (bytes : Bytes) → take (length bytes) bytes ≡ bytes
all_taken [] = refl
all_taken (x ∷ bytes) = ap (λ t. x ∷ t) (all_taken bytes)

appended :
    (old bytes : Bytes)
    → take (length old) old ++ (bytes ++ drop (length old + length bytes) old) ≡ old ++ bytes
appended old bytes =
    rw (drop-add (length old) (length bytes) old, all_dropped old, drop_nil {A = ℕ} (length bytes))
      (ap (λ t. t ++ (bytes ++ [])) (all_taken old) ∙ ap (λ t. old ++ t) (append-nil bytes))

read_of-written :
    (o : Option Bytes) (name : Name) (bytes : Bytes) (files : Files)
    → is_ok (read_of o).0 ≡ true
    → let t = (patched name (length (read_of o).1) bytes o files).1 in
      (is_ok (read_of (lookup name t)).0 ≡ true)
      × ((read_of (lookup name t)).1 ≡ (read_of o).1 ++ bytes)
read_of-written none name bytes files e = absurd (true≢false (sym e))
read_of-written (some old) name bytes files e = rw (name_eq_refl name) (refl, appended old bytes)

read_of-beside :
    (o : Option Bytes) (name other : Name) (offset : ℕ) (bytes : Bytes) (files : Files)
    → other ≢ name
    → read_of (lookup other (patched name offset bytes o files).1) ≡ read_of (lookup other files)
read_of-beside none name other offset bytes files h = refl
read_of-beside (some old) name other offset bytes files h = rw (name_eq_differ name other h) refl

slice_of-read_of :
    (o : Option Bytes) (offset size : ℕ)
    → is_ok (read_of o).0 ≡ true
    → offset + size ≤ length (read_of o).1
    → (is_ok (slice_of offset size o).0 ≡ true)
      × ((slice_of offset size o).1 ≡ take size (drop offset (read_of o).1))
slice_of-read_of none offset size e h = absurd (true≢false (sym e))
slice_of-read_of (some bytes) offset size e h =
    rw (le→not_ltb (length bytes) (offset + size) h) (refl, refl)

size_of-length :
    (o : Option Bytes) → is_ok (read_of o).0 ≡ true → (size_of o).1 ≡ length (read_of o).1
size_of-length none e = absurd (true≢false (sym e))
size_of-length (some bytes) e = refl

pub memory-AppendLaws : (interrupted : Bool) → AppendLaws (memory interrupted)
memory-AppendLaws interrupted = record {
  read_appended =
      λ name bytes s readable written. read_of-written (lookup name s) name bytes s readable;
  read_beside =
      λ name other offset bytes s h. read_of-beside (lookup name s) name other offset bytes s h;
  read_part =
      λ name offset size s readable h. slice_of-read_of (lookup name s) offset size readable h;
  size_is_length = λ name s readable. size_of-length (lookup name s) readable;
}
