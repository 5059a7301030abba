-- ===== src/Base/WriteFile.antt =====
-- framework/base/include/FileUtils.hpp and framework/base/src/FileUtils.cpp: WriteFile. Whether fopen
-- succeeds, and what fwrite writes and ferror says, are arguments; `contents` is what fwrite has taken.
use thread_library.Prelude.{
  ℕ, ◌+◌, ◌-◌, ◌^◌, ◌%◌, Bool, not, ◌&&◌, List, [], ◌++◌, length, take, ltb, ◌==◌, if◌then◌else◌,
}

pub record WriteFile : Type 0 where
  pub is_open : Bool
  pub errno : ℕ
  -- the bits of a 32-bit int
  pub written_bytes : ℕ
  pub contents : List ℕ

pub data Status : Type 0 where
  success file_open_failed file_append_failed file_fflush_failed file_write_failed : Status

-- The count that fwrite returns, and ferror, which is 0 for no error.
pub record Fwrite : Type 0 where
  pub count : ℕ
  pub error : ℕ

unfoldable pub create : Bool → WriteFile
create opened = record { is_open = opened; errno = 0; written_bytes = 0; contents = [] }

unfoldable pub append : Fwrite → List ℕ → WriteFile → Status × WriteFile
append w context f =
    if not f.is_open
    then (file_open_failed, f)
    else let g : WriteFile = record f { contents = f.contents ++ take w.count context } in
      if not (length context == w.count) && not (w.error == 0)
      then (file_append_failed, record g { errno = w.error })
      else (success, record g { written_bytes = (f.written_bytes + length context) % 2 ^ 32 })

-- The int is widened to 64 bits with its sign.
unfoldable pub get_written_bytes : WriteFile → ℕ
get_written_bytes f =
    if ltb f.written_bytes (2 ^ 31) then f.written_bytes else f.written_bytes + (2 ^ 64 - 2 ^ 32)

-- `answer` is that of fflush.
unfoldable pub flush : ℕ → WriteFile → Status
flush answer f =
    if f.is_open then if answer == 0 then success else file_fflush_failed else file_write_failed
