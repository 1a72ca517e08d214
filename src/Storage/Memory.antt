-- ===== src/Storage/Memory.antt =====
-- A disk in memory, for tests: the files by path, every directory at hand, no symbolic link.
use software_hub.Prelude.{
  Bool, true, false, Option, none, some, [], ◌∷◌, ◌++◌, ◌≡◌, refl, list_eq, nat_eq, length,
  if◌then◌else◌, is_some, arith,
}
use software_hub.Storage.{FilePath, Bytes, Os, Metadata, Kind}
use software_hub.Storage.Lawful.{IsLawful, IsTruthful, IsPlain, moved, removed}
use software_hub.Storage.Hashing.{Hasher, IsIncremental}

abbrev pub Disk : Type 0
Disk = FilePath → Option Bytes

abbrev metadata_of : Option Bytes → Option Metadata
metadata_of none = none
metadata_of (some b) = some (record { kind = Kind.regular; size = length b; device = 0 })

abbrev replace_in : FilePath → FilePath → Disk → Option Bytes → Bool × Disk
replace_in p q disk none = (false, disk)
replace_in p q disk (some b) = (true, moved p q disk)

abbrev unlink_in : FilePath → Disk → Option Bytes → Bool × Disk
unlink_in p disk none = (false, disk)
unlink_in p disk (some b) = (true, removed p disk)

abbrev pub memory : Os Disk
memory = record {
  resolve_strict = λ p disk. (some p, disk);
  resolve = λ p disk. (some p, disk);
  is_symlink = λ p disk. (false, disk);
  exists = λ p disk. (is_some (disk p), disk);
  is_dir = λ p disk. (true, disk);
  lstat = λ p disk. (metadata_of (disk p), disk);
  device_of = λ p disk. (some 0, disk);
  mkdir = λ mode p disk. (true, disk);
  chmod = λ mode p disk. (true, disk);
  fsync_file = λ p disk. (true, disk);
  fsync_directory = λ p disk. (true, disk);
  read_bytes = λ p disk. (disk p, disk);
  replace = λ p q disk. replace_in p q disk (disk p);
  unlink = λ p disk. unlink_in p disk (disk p);
  contents = λ disk. disk;
}

replace_in_lem :
    (p q : FilePath) (disk : Disk) (o : Option Bytes)
    → (replace_in p q disk o).1 ≡ (if (replace_in p q disk o).0 then moved p q disk else disk)
replace_in_lem p q disk none = refl
replace_in_lem p q disk (some b) = refl

unlink_in_lem :
    (p : FilePath) (disk : Disk) (o : Option Bytes)
    → (unlink_in p disk o).1 ≡ (if (unlink_in p disk o).0 then removed p disk else disk)
unlink_in_lem p disk none = refl
unlink_in_lem p disk (some b) = refl

absent : (o : Option Bytes) → is_some o ≡ false → o ≡ none
absent none h = refl
absent (some b) h = cc

pub memory-IsLawful : IsLawful memory
memory-IsLawful = record {
  resolve_strict_quiet = λ p s. refl;
  resolve_quiet = λ p s. refl;
  is_symlink_quiet = λ p s. refl;
  exists_quiet = λ p s. refl;
  is_dir_quiet = λ p s. refl;
  lstat_quiet = λ p s. refl;
  device_of_quiet = λ p s. refl;
  mkdir_quiet = λ m p s. refl;
  chmod_quiet = λ m p s. refl;
  fsync_file_quiet = λ p s. refl;
  fsync_directory_quiet = λ p s. refl;
  read_bytes_quiet = λ p s. refl;
  replace_lem = λ p q s. replace_in_lem p q s (s p);
  unlink_lem = λ p s. unlink_in_lem p s (s p);
  exists_lem = λ p s h. absent (s p) h;
  read_bytes_lem = λ p s b h. h;
}

regular_file :
    (o : Option Bytes) (m : Metadata)
    → metadata_of o ≡ some m
    → (b : Bytes) × (o ≡ some b) × (m.size ≡ length b)
regular_file none m h = absurd (cc)
regular_file (some b) m h = (b, refl, ground (arith, h))

pub memory-IsTruthful : IsTruthful memory
memory-IsTruthful = record { lstat_lem = λ p s m h regular. regular_file (s p) m h }

some_eq : {A : Type 0} (a b : A) → some a ≡ some b → b ≡ a
some_eq a b h = cc

pub memory-IsPlain : IsPlain memory
memory-IsPlain = record {
  resolve_strict_plain = λ p s q h. some_eq p q h;
  resolve_plain = λ p s q h. some_eq p q h;
}

-- A hash object that keeps all its data.
abbrev pub recorder : Hasher Bytes
recorder = record { empty = []; update = λ h b. h ++ b; hexdigest = λ h. h }

append_nil : (a : Bytes) → a ++ [] ≡ a
append_nil [] = refl
append_nil (x ∷ a) = ground (arith, append_nil a)

append_assoc : (a b c : Bytes) → (a ++ b) ++ c ≡ a ++ (b ++ c)
append_assoc [] b c = refl
append_assoc (x ∷ a) b c = ground (arith, append_assoc a b c)

pub recorder-IsIncremental : IsIncremental recorder
recorder-IsIncremental = record { update-nil = append_nil; update-append = append_assoc }
