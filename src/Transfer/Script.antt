-- ===== src/Transfer/Script.antt =====
-- The shell script of the delta Pod, `deltaScript` of internal/transfer/delta.go, on the text that
-- `RegionsToText` prints. Of the shell, `read` and the arithmetic on numerals are modelled.
pub mod Regions
pub mod Synced
use nutanix_vma.Prelude.{
  ℕ, ◌+◌, ◌-◌, ◌%◌, ◌==◌, Bool, true, false, List, [], ◌∷◌, ◌++◌, if◌then◌else◌, word, codes,
  decimal64,
}
use nutanix_vma.Prelude.Digits.{number_from}

-- The lines that the loop sees: `read` fails at the end of the file, so that a last line without a
-- newline is read but the body is not run for it.
unfoldable pub lines_from : (line text : List ℕ) → List (List ℕ)
lines_from line [] = []
lines_from line (c ∷ s) = elim (c == b'\n') [
  | true ↦ line ∷ lines_from [] s
  | false ↦ lines_from (line ++ c ∷ []) s
]

-- `IFS=: read -r offset length` splits a line at its first colon.
unfoldable pub split_fields : List ℕ → List ℕ × List ℕ
split_fields [] = ([], [])
split_fields (c ∷ s) =
    let rest = split_fields s in if c == b':' then ([], s) else (c ∷ rest.0, rest.1)

-- A range of bytes that was fetched and written at its offset; `last` is an int64.
pub record Chunk : Type 0 where
  pub offset : ℕ
  pub last : ℕ

-- `$((offset + length - 1))`
abbrev pub chunk : (offset length : ℕ) → Chunk
chunk offset length = record { offset = offset; last = (offset + length + word - 1) % word }

-- The header that `wget` is given, "bytes=${offset}-${end}".
unfoldable pub range_header : Chunk → List ℕ
range_header c = codes "bytes=" ++ codes (decimal64 c.offset) ++ b'-' ∷ codes (decimal64 c.last)

-- What the script did: whether it exited with 0, and the chunks it wrote, in order.
pub record ScriptRun : Type 0 where
  pub finished : Bool
  pub written : List Chunk

-- `copies` says that `wget` fetches a chunk and `dd` writes it; otherwise the script exits with 1.
module _ (copies : Chunk → Bool) where
  unfoldable pub copy : Chunk → ScriptRun → ScriptRun
  copy c rest =
      if copies c
      then record rest { written = c ∷ rest.written }
      else record { finished = false; written = [] }

  -- The body of the loop, `rest` the lines that follow.
  unfoldable pub run_line : (fields : List ℕ × List ℕ) → ScriptRun → ScriptRun
  unfolding copy
  run_line ([], length) rest = rest
  run_line (c ∷ s, length) rest = copy (chunk (number_from 0 (c ∷ s)) (number_from 0 length)) rest

  unfoldable pub run_lines : List (List ℕ) → ScriptRun
  unfolding run_line split_fields
  run_lines [] = record { finished = true; written = [] }
  run_lines (line ∷ rest) = run_line (split_fields line) (run_lines rest)

  unfoldable pub delta_script : (text : List ℕ) → ScriptRun
  unfolding run_lines lines_from
  delta_script text = run_lines (lines_from [] text)
