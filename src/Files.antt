-- ===== src/Files.antt =====
-- What the programs see of a file through the functions of stdio.h.
use ie0417_dev_b.Base.{ℕ, zero, suc, ◌+◌, Option, some, List, [], ◌∷◌, ℤ, CString}
use ie0417_dev_b.Process.{M}

-- The bytes of a file, and the answers of the two calls of `fseek` and of `fread`.
pub record File : Type 0 where
  pub content : List ℕ
  pub seek_end_ret : ℤ
  pub seek_set_ret : ℤ
  pub read_ret : ℕ

-- The file that `fopen` opens for a name; `none` where it fails.
abbrev pub Files : Type 0
Files = CString → Option File

unfoldable pub opened : M (Unit {0})
opened w = some (tt, record w { open_files = w.open_files + 1 })

-- `fclose` of an open file.
unfoldable pub closed : M (Unit {0})
closed w = elim w.open_files [ zero ↦ Option.none | suc n ↦ some (tt, record w { open_files = n }) ]

-- The bytes of a block from `i` on that nothing has written.
unfoldable pub junk_bytes : (ℕ → ℕ) → ℕ → ℕ → List ℕ
junk_bytes junk i zero = []
junk_bytes junk i (suc n) = junk i ∷ junk_bytes junk (i + 1) n
