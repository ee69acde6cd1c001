-- ===== src/Files.antt =====
-- `filesystem::readdirSync` of src/breeze-js/binding/std/filesystem.{h,cc}.
--
-- A file system is a table of nodes, which are numbers. The node of a symbolic link holds what its
-- path resolves to, behind all links, or none for a broken one. `depth` is how deep a path can get
-- before the system refuses it (ELOOP, ENAMETOOLONG), which ends the recursion into links that go
-- round; `what` is the text of the system's error at a path. A directory may not be readable, and the
-- system may refuse the status of a file.
pub mod Shown
pub mod Listed
pub mod Depth
pub mod Errors
pub mod Links
mod Tests
use breeze_js.Prelude.{
  ℕ, zero, suc, Bool, true, false, not, ◌||◌, ◌&&◌, List, [], ◌∷◌, ◌++◌, Option, none, some,
  if◌then◌else◌,
}
use breeze_js.Prelude.Result.{Result, ok, throws}
use breeze_js.Bytes.{Bytes, codes}

abbrev pub Entry : Type 0
Entry = Bytes × ℕ

pub data Node : Type 0 where
  file : Node
  -- with its entries, or none if it cannot be opened
  directory : Option (List Entry) → Node
  symlink : Option ℕ → Node
  -- the system refuses its status, and with a link to it that of what it resolves to
  no_status : Node

abbrev pub Fs : Type 0
Fs = ℕ → Node

pub record ReadDirOptions : Type 0 where
  pub recursive : Bool
  pub follow_symlinks : Bool

-- `setDefault(options)`
abbrev pub set_default : Option ReadDirOptions → ReadDirOptions
set_default none = record { recursive = false; follow_symlinks = false }
set_default (some o) = o

abbrev pub is_symlink : Node → Bool
is_symlink (symlink target) = true
is_symlink _ = false

abbrev pub contents : Node → Option (List Entry)
contents (directory es) = es
contents _ = none

-- What std::filesystem::directory_iterator finds at a node, behind a link if it is one; none is an
-- error.
unfoldable pub iterate : Fs → ℕ → Option (List Entry)
iterate fs i = elim (fs i) [
  | file ↦ none
  | directory es ↦ es
  | symlink none ↦ none
  | symlink (some j) ↦ contents (fs j)
  | no_status ↦ none
]

-- Whether the status of a node is a directory's; none if the system refuses it.
abbrev pub status_of : Node → Option Bool
status_of (directory es) = some true
status_of no_status = none
status_of _ = some false

-- `entry.is_directory()`, which follows a link; none if it throws.
unfoldable pub is_directory : Fs → ℕ → Option Bool
is_directory fs i = elim (fs i) [
  | file ↦ some false
  | directory es ↦ some true
  | symlink none ↦ some false
  | symlink (some j) ↦ status_of (fs j)
  | no_status ↦ none
]

abbrev pub sub_path : Bytes → Bytes → Bytes
sub_path path name = path ++ (codes "/" ++ name)

-- The exception at `path`, for an error of the system at `at`.
abbrev pub read_error : (Bytes → Bytes) → Bytes → Bytes → Bytes
read_error what path at = codes "Error reading directory '" ++ (path ++ (codes "': " ++ what at))

-- `is_symlink(entry)` throws.
abbrev pub refuses : Node → Bool
refuses no_status = true
refuses _ = false

-- Whether the loop pushes the name of an entry.
abbrev pub shows : ReadDirOptions → Fs → ℕ → Bool
shows o fs i = o.follow_symlinks || not (is_symlink (fs i))

-- The names of an entry, `sub` those of the call for it, in front of those of the entries behind.
abbrev pub join_names :
    Bool → Bytes → Result (List Bytes) → Result (List Bytes) → Result (List Bytes)
join_names shown name (throws e) rest = throws e
join_names shown name (ok sub) (throws e) = throws e
join_names shown name (ok sub) (ok rest) = ok ((if shown then name ∷ [] else []) ++ (sub ++ rest))

module _ (what : Bytes → Bytes) (fs : Fs) (o : ReadDirOptions) where
  -- What an entry adds besides its name, or an exception; `call` is the recursive call.
  unfoldable pub entered : (Bytes → ℕ → Result (List Bytes)) → Bytes → Entry → Result (List Bytes)
  entered call path e =
      let sub = sub_path path e.0 in
      if not o.follow_symlinks && refuses (fs e.1)
      then throws (read_error what path sub)
      else if o.recursive
      then elim (is_directory fs e.1) [
        | none ↦ throws (read_error what path sub)
        | some is_dir ↦ if is_dir then call sub e.1 else ok []
      ]
      else ok []

  -- The loop over the entries.
  unfoldable pub read_entries :
      (Bytes → ℕ → Result (List Bytes)) → Bytes → List Entry → Result (List Bytes)
  unfolding entered
  read_entries call path [] = ok []
  read_entries call path (e ∷ es) =
      join_names (shows o fs e.1) e.0 (entered call path e) (read_entries call path es)

  unfoldable pub readdir_sync : ℕ → Bytes → ℕ → Result (List Bytes)
  unfolding read_entries
  readdir_sync zero path i = throws (read_error what path path)
  readdir_sync (suc depth) path i = elim (iterate fs i) [
    | none ↦ throws (read_error what path path)
    | some es ↦ read_entries (readdir_sync depth) path es
  ]
