-- ===== src/Journal/File.antt =====
-- pkg/journal/store.go, `FileStore`. The JSON encoder and decoder are parameters; the file is the
-- list of its lines, each of which a write adds whole or not at all. How many bytes a text has is a
-- parameter, and whether the reading of the file fails after its lines is an argument.
pub mod Reload
use project_mittens.Prelude.{
  ℕ, Bool, true, false, String, Option, none, some, List, [], ◌∷◌, ◌++◌, if◌then◌else◌, ◌*◌, leb,
}
use project_mittens.Prelude.Result.{Result, ok, err}
use project_mittens.Prelude.Dict.{str_eq}
use project_mittens.Float.{Float}
use project_mittens.Journal.Record.{JournalRecord, Payload}
use project_mittens.Journal.Store.{JournalError, MemoryStore, new_memory_store, append}

pub record FileStore {ℓ} (W : Type ℓ) : Type ℓ where
  pub lines : List String
  pub mem : MemoryStore W

pub data FileError : Type 0 where
  journal : JournalError → FileError
  failed_opening failed_marshaling failed_writing failed_syncing : FileError
  malformed_line line_too_long failed_reading : FileError
  invalid_record : JournalError → FileError

-- What the operating system does with one append: it fails at the opening, the writing or the
-- syncing of the file, or nowhere.
pub data Disk : Type 0 where
  open_fails write_fails sync_fails succeeds : Disk

abbrev pub is_io : FileError → Bool
is_io (journal e) = false
is_io failed_opening = true
is_io failed_marshaling = true
is_io failed_writing = true
is_io failed_syncing = true
is_io malformed_line = false
is_io line_too_long = false
is_io failed_reading = false
is_io (invalid_record e) = false

module _ {ℓ} {W : Type ℓ} where
  -- `f.Write` and `f.Sync`
  abbrev pub write_line : Disk → String → FileStore W → FileStore W × Option FileError
  write_line open_fails line fs = (fs, some failed_opening)
  write_line write_fails line fs = (fs, some failed_writing)
  write_line sync_fails line fs =
      (record fs { lines = fs.lines ++ (line ∷ []) }, some failed_syncing)
  write_line succeeds line fs = (record fs { lines = fs.lines ++ (line ∷ []) }, none)

  abbrev pub marshal_and_write : Disk → Option String → FileStore W → FileStore W × Option FileError
  marshal_and_write disk line fs = elim disk [
    | open_fails ↦ (fs, some failed_opening)
    | reached ↦ elim line [
      | none ↦ (fs, some failed_marshaling)
      | some line ↦ write_line reached line fs
    ]
  ]

  -- After the append to the index.
  abbrev pub record_append :
      Disk
      → Option String
      → FileStore W
      → Result JournalError (MemoryStore W)
      → FileStore W × Option FileError
  record_append disk line fs (err e) = (fs, some (journal e))
  record_append disk line fs (ok mem) = marshal_and_write disk line (record fs { mem = mem })

module _ {ℓ} {W : Type ℓ} ⦃f : Float W⦄ (digest : Payload W → String)
    (marshal : JournalRecord W → Option String) where
  unfoldable pub append_to_file :
      Disk → FileStore W → JournalRecord W → FileStore W × Option FileError
  append_to_file disk fs r = record_append disk (marshal r) fs (append digest fs.mem r)

-- The size of the scanner's buffer, in bytes: a line and its end have to fit in.
abbrev pub max_line : ℕ
max_line = 16 * 1024 * 1024

module _ {ℓ} {W : Type ℓ} ⦃f : Float W⦄ (digest : Payload W → String) (bytes : String → ℕ)
    (unmarshal : String → Option (JournalRecord W)) where
  -- One line of `loadFromFile`.
  unfoldable pub load_line : MemoryStore W → String → Result FileError (MemoryStore W)
  load_line mem line =
      if leb max_line (bytes line)
      then err line_too_long
      else if str_eq line ""
      then ok mem
      else elim (unmarshal line) [
        | none ↦ err malformed_line
        | some r ↦ elim (append digest mem r) [ err e ↦ err (invalid_record e) | ok mem ↦ ok mem ]
      ]

  unfoldable pub load_lines :
      Result FileError (MemoryStore W) → List String → Result FileError (MemoryStore W)
  load_lines (err e) lines = err e
  load_lines (ok mem) [] = ok mem
  load_lines (ok mem) (line ∷ lines) = load_lines (load_line mem line) lines

  -- `scanner.Err()` after the lines
  abbrev pub scanned : Bool → Result FileError (MemoryStore W) → Result FileError (MemoryStore W)
  scanned reading_fails (err e) = err e
  scanned reading_fails (ok mem) = if reading_fails then err failed_reading else ok mem

  unfoldable pub load_from_file : Bool → List String → Result FileError (MemoryStore W)
  unfolding load_lines
  load_from_file reading_fails lines =
      scanned reading_fails (load_lines (ok new_memory_store) lines)

  -- The file that is there, or none.
  unfoldable pub new_file_store : Bool → Option (List String) → Result FileError (FileStore W)
  unfolding load_from_file
  new_file_store reading_fails none = ok (record { lines = []; mem = new_memory_store })
  new_file_store reading_fails (some lines) = elim (load_from_file reading_fails lines) [
    | err e ↦ err e
    | ok mem ↦ ok (record { lines = lines; mem = mem })
  ]
