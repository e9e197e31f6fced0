-- ===== src/Disk.antt =====
-- support/file_util.cpp: `file_exists`, `load_from_file` and `save_to_file` over the file system,
-- which is the operating system's.
pub mod Path
use test_assignment.Prelude.{Bool, true, ◌≡◌, ◌≢◌, Bytes, if◌then◌else◌}
use test_assignment.Prelude.Result.{Result, ok, err, io_error}

pub record Disk : Type 1 where
  pub State : Type 0
  -- there is a file, and no directory, of that name
  pub file_exists : State → Bytes → Bool
  -- the bytes that a stream on the file gives
  pub contents : State → Bytes → Bytes
  -- a stream that empties the file and writes the bytes; whether it could be opened
  pub write : State → Bytes → Bytes → State × Bool

-- `load_from_file(fn)`
unfoldable pub load_from_file : (D : Disk) → D.State → Bytes → Result Bytes
load_from_file D s fn = if D.file_exists s fn then ok (D.contents s fn) else err io_error

-- `save_to_file(fn, data)`
unfoldable pub save_to_file : (D : Disk) → D.State → Bytes → Bytes → D.State × Bool
save_to_file D s fn text = D.write s fn text

-- What is documented of a stream: where it could be opened, the file is there with the bytes
-- written; no other file changes.
pub record IsLawful (D : Disk) : Type 0 where
  pub exists-write :
      (s : D.State) (fn text : Bytes)
      → (D.write s fn text).1 ≡ true
      → D.file_exists (D.write s fn text).0 fn ≡ true
  pub contents-write :
      (s : D.State) (fn text : Bytes)
      → (D.write s fn text).1 ≡ true
      → D.contents (D.write s fn text).0 fn ≡ text
  pub exists-other :
      (s : D.State) (fn text other : Bytes)
      → other ≢ fn
      → D.file_exists (D.write s fn text).0 other ≡ D.file_exists s other
  pub contents-other :
      (s : D.State) (fn text other : Bytes)
      → other ≢ fn
      → D.contents (D.write s fn text).0 other ≡ D.contents s other
