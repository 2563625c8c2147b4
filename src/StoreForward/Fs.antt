-- ===== src/StoreForward/Fs.antt =====
-- The filesystem that the queue runs on (LittleFS, not part of this repository): a record of the
-- operations that the source calls over a world `W`, and the documented behaviour that proofs use.
-- A readable file is a value `R`, since reading changes no file; a writable one is named by its path,
-- since no function of the source holds two for one path.
use devices.Prelude.{
  ℕ, ◌≤◌, Bool, true, false, Option, some, List, [], ◌++◌, ◌≡◌, ◌≢◌, length, drop,
}

pub data Segment : Type 0 where
  seg_zero seg_one : Segment

pub data FilePath : Type 0 where
  metadata_path metadata_temporary_path segment_repair_path rejected_temporary_path : FilePath
  segment_path quarantine_path : Segment → FilePath
  rejected_path : ℕ → FilePath

pub record Fs (W R : Type 0) : Type 0 where
  pub exists : FilePath → W → Bool
  pub remove : FilePath → W → W
  pub rename : FilePath → FilePath → W → Bool × W
  -- `open` with FILE_READ, FILE_WRITE and FILE_APPEND
  pub open_read : FilePath → W → Option R × W
  pub open_write : FilePath → W → Bool × W
  pub open_append : FilePath → W → Bool × W
  -- How many of the bytes were written to the file open at the path.
  pub write : FilePath → List ℕ → W → ℕ × W
  pub flush : FilePath → W → W
  pub close : FilePath → W → W
  pub size : R → ℕ
  pub seek : ℕ → R → Bool × R
  -- At most so many of the bytes that follow, and the file behind them.
  pub read : ℕ → R → List ℕ × R
  pub available : R → Bool

-- A file that is being read: all its bytes, and those that are still to come. A read may be short.
pub record IsReader {W R : Type 0} (fs : Fs W R) (whole rest : R → List ℕ) : Type 0 where
  pub size_whole : (r : R) → fs.size r ≡ length (whole r)
  pub seek_rest : (n : ℕ) (r : R) → (fs.seek n r).0 ≡ true → rest (fs.seek n r).1 ≡ drop n (whole r)
  pub seek_whole : (n : ℕ) (r : R) → whole (fs.seek n r).1 ≡ whole r
  pub read_rest : (n : ℕ) (r : R) → rest r ≡ (fs.read n r).0 ++ rest (fs.read n r).1
  pub read_le : (n : ℕ) (r : R) → length (fs.read n r).0 ≤ n
  pub read_whole : (n : ℕ) (r : R) → whole (fs.read n r).1 ≡ whole r

-- What the files hold; a file that is not there holds nothing. Every operation may fail.
pub record IsFs {W R : Type 0} (fs : Fs W R) (whole rest : R → List ℕ)
    (content : FilePath → W → List ℕ) : Type 0 where
  pub reader : IsReader fs whole rest
  pub open_read_keeps : (p q : FilePath) (w : W) → content q (fs.open_read p w).1 ≡ content q w
  pub open_read_exists : (p q : FilePath) (w : W) → fs.exists q (fs.open_read p w).1 ≡ fs.exists q w
  pub open_read_whole :
      (p : FilePath) (w : W) (r : R) → (fs.open_read p w).0 ≡ some r → whole r ≡ content p w
  pub open_read_rest :
      (p : FilePath) (w : W) (r : R) → (fs.open_read p w).0 ≡ some r → rest r ≡ content p w
  pub open_write_truncates :
      (p : FilePath) (w : W) → (fs.open_write p w).0 ≡ true → content p (fs.open_write p w).1 ≡ []
  pub open_write_other :
      (p q : FilePath) (w : W) → p ≢ q → content q (fs.open_write p w).1 ≡ content q w
  pub open_write_fails :
      (p q : FilePath) (w : W)
      → (fs.open_write p w).0 ≡ false
      → content q (fs.open_write p w).1 ≡ content q w
  pub open_append_keeps : (p q : FilePath) (w : W) → content q (fs.open_append p w).1 ≡ content q w
  pub write_appends :
      (p : FilePath) (bytes : List ℕ) (w : W)
      → (fs.write p bytes w).0 ≡ length bytes
      → content p (fs.write p bytes w).1 ≡ content p w ++ bytes
  pub write_other :
      (p q : FilePath) (bytes : List ℕ) (w : W)
      → p ≢ q
      → content q (fs.write p bytes w).1 ≡ content q w
  pub flush_keeps : (p q : FilePath) (w : W) → content q (fs.flush p w) ≡ content q w
  pub close_keeps : (p q : FilePath) (w : W) → content q (fs.close p w) ≡ content q w
  pub remove_other : (p q : FilePath) (w : W) → p ≢ q → content q (fs.remove p w) ≡ content q w
  -- A rename replaces its destination atomically, or changes nothing.
  pub rename_moves :
      (p q : FilePath) (w : W)
      → (fs.rename p q w).0 ≡ true
      → content q (fs.rename p q w).1 ≡ content p w
  pub rename_fails :
      (p q r : FilePath) (w : W)
      → (fs.rename p q w).0 ≡ false
      → content r (fs.rename p q w).1 ≡ content r w
  pub rename_other :
      (p q r : FilePath) (w : W) → p ≢ r → q ≢ r → content r (fs.rename p q w).1 ≡ content r w
