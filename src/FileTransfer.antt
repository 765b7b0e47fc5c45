-- ===== src/FileTransfer.antt =====
-- client/filetransfer.go: the error codes, the checks on a path and the octal file mode.
-- Reading and writing are in FileTransfer/Read and FileTransfer/Write.
pub mod Mode
pub mod Read
pub mod Write
use Prim.Native.Char.{code}
use claude_distant.Common.{
  Option, [], if◌then◌else◌, is_empty, leb, ltb, none, some, ℕ, ◌%◌, ◌&&◌, ◌*◌, ◌+◌, ◌-◌, ◌^◌, ◌∷◌,
}
use claude_distant.Common.Maybe.{◌>>=◌}
use claude_distant.Text.{Text, codes, trim_space}

-- The stable codes of `result.error`.
pub data ErrCode : Type 0 where
  file_not_found permission_denied is_a_directory file_exists : ErrCode
  file_too_large invalid_base64 invalid_params io_error : ErrCode

unfoldable pub code_text : ErrCode → Text
code_text file_not_found = codes "file_not_found"
code_text permission_denied = codes "permission_denied"
code_text is_a_directory = codes "is_a_directory"
code_text file_exists = codes "file_exists"
code_text file_too_large = codes "file_too_large"
code_text invalid_base64 = codes "invalid_base64"
code_text invalid_params = codes "invalid_params"
code_text io_error = codes "io_error"

-- What `errors.Is` finds in an operating system's error: `fs.ErrNotExist`, `fs.ErrPermission`,
-- `fs.ErrExist` or none of them.
pub data OsError : Type 0 where
  err_not_exist err_permission err_exist err_other : OsError

-- An error of a transfer: a `*fileError`, or an error of the system or the connection as it came.
pub data TransferError : Type 0 where
  file_error : ErrCode → TransferError
  os_error : OsError → TransferError

-- `fileErrorCode`; the nil error has no code and is not a `TransferError`.
unfoldable pub file_error_code : TransferError → ErrCode
file_error_code (file_error code) = code
file_error_code (os_error err_not_exist) = file_not_found
file_error_code (os_error err_permission) = permission_denied
file_error_code (os_error err_exist) = file_exists
file_error_code (os_error err_other) = io_error

pub data Transfer {ℓ} (A : Type ℓ) : Type ℓ where
  done : A → Transfer A
  failed : TransferError → Transfer A

-- `transferPath`
unfoldable pub transfer_path : Text → Transfer Text
transfer_path path =
    if is_empty (trim_space path) then failed (file_error invalid_params) else done path

-- `maxFileTransferBytes`, `fileChunkBytes`
abbrev pub max_file_transfer_bytes : ℕ
max_file_transfer_bytes = 8 * 2 ^ 20

abbrev pub file_chunk_bytes : ℕ
file_chunk_bytes = 192 * 1024

-- `strconv.ParseUint(s, 8, 32)` after the digits that made `n`: a digit past 7 and a value past 32
-- bits are errors.
unfoldable pub parse_octal : ℕ → Text → Option ℕ
parse_octal n [] = some n
parse_octal n (c ∷ s) =
    let m = n * 8 + (c - b'0') in
    let more = parse_octal m s in if leb b'0' c && leb c b'7' && ltb m (2 ^ 32) then more else none

-- `parseFileMode`; `none` is `ok=false`. `Perm` keeps the low nine bits.
unfoldable pub parse_file_mode : Text → Option ℕ
unfolding parse_octal
parse_file_mode mode =
    let s = trim_space mode in if is_empty s then none else do n ← parse_octal 0 s; some (n % 2 ^ 9)
