-- ===== src/Io.antt =====
-- The reading and writing of files of src/breeze-js/binding/std/filesystem.{h,cc}: readFile,
-- readFileAsString, readFileSync, readFileAsStringSync, writeFile, writeStringToFile, mkdirSync,
-- rmSync, mkdir, rm and exists, which is a field here. A `Lazy` result is taken as the result
-- that awaiting it gives.
--
-- The disk and what the system and `coro_io::coro_file` do with it are parameters. The string and the
-- byte versions of a function differ in the type of the bytes alone, so one model serves both.
pub mod RoundTrip
mod Tests
use breeze_js.Prelude.{
  ℕ, zero, suc, ◌+◌, ◌/◌, ◌%◌, Bool, true, false, not, List, [], ◌∷◌, ◌++◌, Option, none, some, ltb,
  ◌==◌, if◌then◌else◌, length,
}
use breeze_js.Prelude.Result.{Result, ok, throws}
use breeze_js.Bytes.{Bytes, codes}

pub record System (Disk : Type 0) : Type 0 where
  -- std::filesystem; an exception is a filesystem_error with its text
  pub exists : Disk → Bytes → Bool
  pub parent_path : Bytes → Bytes
  pub create_directories : Disk → Bytes → Result Disk
  pub create_directory : Disk → Bytes → Result Disk
  pub remove : Disk → Bytes → Result Disk
  pub remove_all : Disk → Bytes → Result Disk
  -- std::ifstream read to its end, and std::ofstream opened and closed; none if it is not open
  pub read_stream : Disk → Bytes → Option Bytes
  pub open_stream : Disk → Bytes → Option Disk
  -- coro_file opened for reading and for writing; none if it is not open
  pub open_in : Disk → Bytes → Bool
  pub open_out : Disk → Bytes → Option Disk
  pub file_size : Disk → Bytes → ℕ
  -- async_read of so many bytes: the error's text, the number read, and the buffer
  pub async_read : Disk → Bytes → ℕ → Option Bytes × ℕ × Bytes
  -- async_write: the error's text, the number written, and the disk
  pub async_write : Disk → Bytes → Bytes → Option Bytes × ℕ × Disk

-- `std::to_string`; a number has at most as many digits as it counts, and one more.
abbrev pub decimal_within : ℕ → ℕ → Bytes
decimal_within zero n = []
decimal_within (suc fuel) n =
    (if ltb n 10 then [] else decimal_within fuel (n / 10)) ++ (b'0' + n % 10) ∷ []

unfoldable pub decimal : ℕ → Bytes
decimal n = decimal_within (suc n) n

module _ {Disk : Type 0} (io : System Disk) where
  abbrev pub size_error : Bytes → Bytes → Bytes → ℕ → ℕ → Bytes
  size_error what path done size count =
      what ++ (path ++ (codes " - Expected size: " ++ (decimal size ++ (done ++ decimal count))))

  -- Behind the check of the size.
  unfoldable pub finish_read : Bytes → ℕ → Option Bytes × ℕ × Bytes → Result Bytes
  finish_read path size (some e, count, content) =
      throws (codes "Error reading file: " ++ (path ++ (codes " - " ++ e)))
  finish_read path size (none, count, content) =
      if not (count == size)
      then throws
          (size_error (codes "Error reading file: ") path (codes ", Read size: ") size count)
      else ok content

  -- readFile
  unfoldable pub read_file : Bytes → Disk → Result Bytes
  unfolding finish_read
  read_file path d =
      let size = io.file_size d path in
      if not (io.open_in d path)
      then throws (codes "Error opening file: " ++ path)
      else if size == 0
      then ok []
      else finish_read path size (io.async_read d path size)

  abbrev pub read_file_as_string : Bytes → Disk → Result Bytes
  read_file_as_string = read_file

  -- readFileSync
  unfoldable pub read_file_sync : Bytes → Disk → Result Bytes
  read_file_sync path d = elim (io.read_stream d path) [
    | none ↦ throws (codes "Error opening file: " ++ path)
    | some content ↦ ok content
  ]

  abbrev pub read_file_as_string_sync : Bytes → Disk → Result Bytes
  read_file_as_string_sync = read_file_sync

  -- "create first if it doesn't exist"
  unfoldable pub create_first : Bytes → Disk → Result Disk
  create_first path d =
      if io.exists d path then ok d else elim (io.create_directories d (io.parent_path path)) [
        | throws e ↦ throws e
        | ok d' ↦ elim (io.open_stream d' path) [
          | none ↦ throws (codes "Error creating file: " ++ path)
          | some d'' ↦ ok d''
        ]
      ]

  unfoldable pub finish_write : Bytes → Bytes → Option Bytes × ℕ × Disk → Result Disk
  finish_write path content (some e, count, d) =
      throws (codes "Error writing to file: " ++ (path ++ (codes " - " ++ e)))
  finish_write path content (none, count, d) =
      if not (count == length content)
      then throws (
          size_error (codes "Error writing to file: ") path (codes ", Written size: ")
            (length content) count)
      else ok d

  unfoldable pub write_opened : Bytes → Bytes → Disk → Result Disk
  unfolding finish_write
  write_opened path content d = elim (io.open_out d path) [
    | none ↦ throws (codes "Error opening file for writing: " ++ path)
    | some d' ↦ finish_write path content (io.async_write d' path content)
  ]

  -- writeFile: the disk where it returns true.
  unfoldable pub write_file : Bytes → Bytes → Disk → Result Disk
  unfolding write_opened create_first
  write_file path content d = elim (create_first path d) [
    | throws e ↦ throws e
    | ok d' ↦ write_opened path content d'
  ]

  abbrev pub write_string_to_file : Bytes → Bytes → Disk → Result Disk
  write_string_to_file = write_file

  unfoldable pub mkdir_sync : Bool → Bytes → Disk → Result Disk
  mkdir_sync recursive path d =
      elim (if recursive then io.create_directories d path else io.create_directory d path) [
        | throws e ↦ throws (codes "Error creating directory '" ++ (path ++ (codes "': " ++ e)))
        | ok d' ↦ ok d'
      ]

  -- rmSync: whether the path is gone, and the disk.
  unfoldable pub rm_sync : Bool → Bytes → Disk → Result (Bool × Disk)
  rm_sync recursive path d = elim (if recursive then io.remove_all d path else io.remove d path) [
    | throws e ↦ throws e
    | ok d' ↦ ok (not (io.exists d' path), d')
  ]

  abbrev pub mkdir : Bool → Bytes → Disk → Result Disk
  mkdir = mkdir_sync

  abbrev pub rm : Bool → Bytes → Disk → Result (Bool × Disk)
  rm = rm_sync
