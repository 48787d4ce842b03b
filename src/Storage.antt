-- ===== src/Storage.antt =====
-- The files that include/sententia/storage/ and src/storage/ write whole: the system's calls on them,
-- and a write to a temporary file that is then renamed. The texts of errors are left out.
pub mod Promises
pub mod StableStore
pub mod Voting
pub mod SnapshotFile
pub mod SnapshotBytes
pub mod SnapshotLoading
pub mod DurableState
pub mod Entries
pub mod Recovering
pub mod Reopening
pub mod Installing
use sententia.Prelude.{
  Bool, true, false, Option, none, some, ◌||◌, ℕ, ◌==◌, List, [], ◌∷◌, ◌++◌, if◌then◌else◌,
}

-- What `open` and `read` give of a file: ENOENT, another error, or all its bytes.
pub data Reading : Type 0 where
  absent : Reading
  unreadable : Reading
  bytes_read : List ℕ → Reading

-- The system's calls, on files that have paths: `create` is `open` with O_TRUNC, `write_all` writes
-- all of some bytes at the end, `sync_dir` opens a directory and flushes it. A Boolean result says
-- whether the call succeeded.
pub record Files : Type 1 where
  pub State : Type 0
  pub make_dir : List ℕ → State → Bool × State
  pub read_file : List ℕ → State → Reading
  pub create : List ℕ → State → Bool × State
  pub write_all : List ℕ → List ℕ → State → Bool × State
  pub sync_file : List ℕ → State → Bool × State
  pub rename : List ℕ → List ℕ → State → Bool × State
  pub sync_dir : List ℕ → State → Bool × State

abbrev pub tmp_path : List ℕ → List ℕ
tmp_path path = path ++ b'.' ∷ b't' ∷ b'm' ∷ b'p' ∷ []

-- The part before the last slash.
unfoldable pub before_slash : List ℕ → Option (List ℕ)
before_slash [] = none
before_slash (c ∷ cs) = elim (before_slash cs) [
  | some dir ↦ some (c ∷ dir)
  | none ↦ if c == b'/' then some [] else none
]

abbrev dir_or_here : Option (List ℕ) → List ℕ
dir_or_here none = b'.' ∷ []
dir_or_here (some dir) = dir

abbrev pub parent_dir : List ℕ → List ℕ
parent_dir path = dir_or_here (before_slash path)

unfoldable pub is_dir_path : List ℕ → Bool
is_dir_path [] = true
is_dir_path (c ∷ []) = c == b'/'
is_dir_path (c ∷ d ∷ cs) = is_dir_path (d ∷ cs)

unfoldable pub join : List ℕ → List ℕ → List ℕ
join dir name = if is_dir_path dir then dir ++ name else dir ++ b'/' ∷ name

module _ (files : Files) where
  -- The next call of a function that returns at the first failure.
  abbrev pub then_try : (files.State → Bool × files.State) → Bool × files.State → Bool × files.State
  then_try next (false, d) = (false, d)
  then_try next (true, d) = next d

  -- The bytes in the temporary file, flushed.
  unfoldable pub write_tmp : List ℕ → List ℕ → files.State → Bool × files.State
  write_tmp tmp bytes d =
      then_try (files.sync_file tmp) (then_try (files.write_all tmp bytes) (files.create tmp d))

  abbrev pub sync_parent_directory : List ℕ → files.State → Bool × files.State
  sync_parent_directory path = files.sync_dir (parent_dir path)

  -- The temporary file takes the place of the old one.
  unfoldable pub put_in_place : List ℕ → files.State → Bool × files.State
  put_in_place path d = then_try (sync_parent_directory path) (files.rename (tmp_path path) path d)
