-- ===== src/StoreForward/Ram.antt =====
-- Files in memory: an instance of the filesystem interface that the tests run the queue over.
use devices.Prelude.{
  ℕ, zero, suc, ◌≡◌, ◌≢◌, refl, sym, ap, ◌∙◌, true, some, List, [], ◌++◌, arith, length,
  length-take, take, drop, take-append-drop, not, ◌==◌, if◌then◌else◌,
}
use devices.StoreForward.Fs.{
  seg_zero, seg_one, FilePath, metadata_path, metadata_temporary_path, segment_repair_path,
  rejected_temporary_path, segment_path, quarantine_path, rejected_path, Fs, IsReader, IsFs,
}

abbrev pub Files : Type 0
Files = FilePath → List ℕ

-- All the bytes of a file, and those still to come.
abbrev pub Reader : Type 0
Reader = List ℕ × List ℕ

abbrev path_code : FilePath → ℕ
path_code metadata_path = 0
path_code metadata_temporary_path = 1
path_code segment_repair_path = 2
path_code rejected_temporary_path = 3
path_code (segment_path seg_zero) = 4
path_code (segment_path seg_one) = 5
path_code (quarantine_path seg_zero) = 6
path_code (quarantine_path seg_one) = 7
path_code (rejected_path n) = suc (suc (suc (suc (suc (suc (suc (suc n)))))))

abbrev path_of : ℕ → FilePath
path_of zero = metadata_path
path_of (suc zero) = metadata_temporary_path
path_of (suc (suc zero)) = segment_repair_path
path_of (suc (suc (suc zero))) = rejected_temporary_path
path_of (suc (suc (suc (suc zero)))) = segment_path seg_zero
path_of (suc (suc (suc (suc (suc zero))))) = segment_path seg_one
path_of (suc (suc (suc (suc (suc (suc zero)))))) = quarantine_path seg_zero
path_of (suc (suc (suc (suc (suc (suc (suc zero))))))) = quarantine_path seg_one
path_of (suc (suc (suc (suc (suc (suc (suc (suc n)))))))) = rejected_path n

path_of-path_code : (p : FilePath) → path_of (path_code p) ≡ p
path_of-path_code metadata_path = refl
path_of-path_code metadata_temporary_path = refl
path_of-path_code segment_repair_path = refl
path_of-path_code rejected_temporary_path = refl
path_of-path_code (segment_path seg_zero) = refl
path_of-path_code (segment_path seg_one) = refl
path_of-path_code (quarantine_path seg_zero) = refl
path_of-path_code (quarantine_path seg_one) = refl
path_of-path_code (rejected_path n) = refl

path_code-ne : (p q : FilePath) → p ≢ q → path_code p ≢ path_code q
path_code-ne p q ne e = ne (sym (path_of-path_code p) ∙ (ap path_of e ∙ path_of-path_code q))

abbrev pub update : Files → FilePath → List ℕ → Files
update w p bytes q = if path_code p == path_code q then bytes else w q

update_self : (w : Files) (p : FilePath) (bytes : List ℕ) → update w p bytes p ≡ bytes
update_self w p bytes = ground arith

update_other : (w : Files) (p q : FilePath) (bytes : List ℕ) → p ≢ q → update w p bytes q ≡ w q
update_other w p q bytes ne = ground (arith, path_code-ne p q ne)

abbrev pub ram : Fs Files Reader
ram = record {
  exists = λ p w. not (length (w p) == 0);
  remove = λ p w. update w p [];
  rename =
      λ p q w. (true, update (update w q (w p)) p (if path_code p == path_code q then w p else []));
  open_read = λ p w. (some (w p, w p), w);
  open_write = λ p w. (true, update w p []);
  open_append = λ p w. (true, w);
  write = λ p bytes w. (length bytes, update w p (w p ++ bytes));
  flush = λ p w. w;
  close = λ p w. w;
  size = λ r. length (r.0);
  seek = λ n r. (true, (r.0, drop n (r.0)));
  read = λ n r. (take n (r.1), (r.0, drop n (r.1)));
  available = λ r. not (length (r.1) == 0);
}

pub ram-IsReader : IsReader ram (λ r. r.0) (λ r. r.1)
ram-IsReader = record {
  size_whole = λ r. refl;
  seek_rest = λ n r h. refl;
  seek_whole = λ n r. refl;
  read_rest = λ n r. take-append-drop n (r.1);
  read_le = λ n r. omega (arith, length-take n (r.1));
  read_whole = λ n r. refl;
}

pub ram-IsFs : IsFs ram (λ r. r.0) (λ r. r.1) (λ p w. w p)
ram-IsFs = record {
  reader = ram-IsReader;
  open_read_keeps = λ p q w. refl;
  open_read_exists = λ p q w. refl;
  open_read_whole = λ p w r h. ground arith;
  open_read_rest = λ p w r h. ground arith;
  open_write_truncates = λ p w h. update_self w p [];
  open_write_other = λ p q w ne. update_other w p q [] ne;
  open_write_fails = λ p q w h. cc;
  open_append_keeps = λ p q w. refl;
  write_appends = λ p bytes w h. update_self w p (w p ++ bytes);
  write_other = λ p q bytes w ne. update_other w p q (w p ++ bytes) ne;
  flush_keeps = λ p q w. refl;
  close_keeps = λ p q w. refl;
  remove_other = λ p q w ne. update_other w p q [] ne;
  rename_moves = λ p q w h. ground arith;
  rename_fails = λ p q r w h. cc;
  rename_other = λ p q r w ne ne'. ground (arith, path_code-ne p r ne, path_code-ne q r ne');
}
