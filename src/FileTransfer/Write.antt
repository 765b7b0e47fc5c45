-- ===== src/FileTransfer/Write.antt =====
-- `writeFileTransfer`: the checks, and the installation through a temporary file.
pub mod Nodes
pub mod Atomic
pub mod Leftover
use Prim.Native.Char.{code}
use claude_distant.Base64.{Bytes, decode_string}
use claude_distant.Common.{
  Bool, Option, false, if◌then◌else◌, inl, inr, length, ltb, none, some, true, ℕ, ◌⊎◌,
}
use claude_distant.FileTransfer.{
  ErrCode, OsError, Transfer, TransferError, done, failed, file_error, file_exists, file_too_large,
  invalid_base64, is_a_directory, max_file_transfer_bytes, os_error, parse_file_mode, transfer_path,
}
use claude_distant.FileTransfer.Read.{hex}
use claude_distant.Protocol.{WriteFileParams}
use claude_distant.Text.{Text, equal}

pub data Node : Type 0 where
  dir_node : Node
  file_node : Bytes → ℕ → Node

-- A file system, by the node at each path.
abbrev pub Fs : Type 0
Fs = Text → Option Node

unfoldable pub put_node : Text → Option Node → Fs → Fs
put_node k v fs j = if equal j k then v else fs j

-- The system calls, and whether each fails. `create_temp` is `os.CreateTemp` in a directory, by its
-- error or the name that it picks, and `mkdir_all` is `os.MkdirAll`, which may leave directories behind where it fails.
pub record WriteOs : Type 0 where
  pub stat_error : Text → Bool
  pub dir_of : Text → Text
  pub mkdir_all : Text → Fs → Option OsError × Fs
  pub create_temp : Text → Fs → OsError ⊎ Text
  pub write_error : Option OsError
  pub sync_error : Option OsError
  pub close_error : Option OsError
  pub chmod_fails : Bool
  pub rename_error : Option OsError
  pub remove_fails : Bool
  pub sha256 : Bytes → Bytes

-- The `meta` object of a write.
pub record WriteMeta : Type 0 where
  pub path : Text
  pub bytes_written : ℕ
  pub sha256 : Text

abbrev pub WriteResult : Type 0
WriteResult = Fs × Transfer WriteMeta

-- `os.Stat`
unfoldable pub stat : WriteOs → Fs → Text → Option Node
stat os fs path = if os.stat_error path then none else fs path

-- The mode that `os.CreateTemp` gives a file.
abbrev pub temp_perm : ℕ
temp_perm = 0o600

-- The permissions of the installed file.
unfoldable pub chosen_perm : Text → Option Node → ℕ
chosen_perm mode existing = elim (parse_file_mode mode) [
  | some perm ↦ perm
  | none ↦ elim existing [
    | some (file_node content perm) ↦ perm
    | some dir_node ↦ 0o644
    | none ↦ 0o644
  ]
]

-- The deferred cleanup of a file that was not installed.
unfoldable pub discard : WriteOs → Text → Fs → TransferError → WriteResult
discard os tmp fs e = (if os.remove_fails then fs else put_node tmp none fs, failed e)

-- `os.Rename`, and the report.
unfoldable pub rename_into : WriteOs → Text → Text → Bytes → ℕ → Fs → WriteResult
unfolding discard
rename_into os tmp path content perm fs = elim os.rename_error [
  | some e ↦ discard os tmp fs (os_error e)
  | none ↦ (
    put_node path (some (file_node content perm)) (put_node tmp none fs),
    done (record { path = path; bytes_written = length content; sha256 = hex (os.sha256 content) }),
  )
]

-- The first error of the write, the flush and the close.
unfoldable pub first_error : Option OsError → Option OsError → Option OsError → Option OsError
first_error (some e) s c = some e
first_error none (some e) c = some e
first_error none none c = c

-- Behind the write to the temporary file `tmp`: the error of the write, the flush or the close. What
-- a failed write left in the file does not matter, since it is discarded.
unfoldable pub after_write :
    WriteOs → Text → Text → Bytes → Option Node → Fs → Text → Option OsError → WriteResult
unfolding rename_into
after_write os path mode content existing fs tmp (some e) =
    discard os tmp (put_node tmp (some (file_node content temp_perm)) fs) (os_error e)
after_write os path mode content existing fs tmp none =
    let perm = if os.chmod_fails then temp_perm else chosen_perm mode existing in
    rename_into os tmp path content perm (put_node tmp (some (file_node content perm)) fs)

-- Behind the creation of the temporary file.
unfoldable pub after_create :
    WriteOs → Text → Text → Bytes → Option Node → Fs → OsError ⊎ Text → WriteResult
unfolding after_write first_error
after_create os path mode content existing fs (inl e) = (fs, failed (os_error e))
after_create os path mode content existing fs (inr tmp) =
    after_write os path mode content existing fs tmp
      (first_error os.write_error os.sync_error os.close_error)

-- From the creation of the temporary file on.
unfoldable pub install : WriteOs → Text → Text → Bytes → Option Node → Fs → WriteResult
unfolding after_create
install os path mode content existing fs =
    after_create os path mode content existing fs (os.create_temp (os.dir_of path) fs)

-- `if p.CreateDirs { os.MkdirAll(…) }`
unfoldable pub make_dirs_and_install :
    WriteOs → Bool → Text → Text → Bytes → Option Node → Fs → WriteResult
unfolding install
make_dirs_and_install os false path mode content existing fs =
    install os path mode content existing fs
make_dirs_and_install os true path mode content existing fs =
    let (e, fs') = os.mkdir_all (os.dir_of path) fs in
    elim e [
      | some err ↦ (fs', failed (os_error err))
      | none ↦ install os path mode content existing fs'
    ]

-- The `switch` on what is there already.
unfoldable pub check_target : Bool → Option Node → Option ErrCode
check_target overwrite none = none
check_target overwrite (some dir_node) = some is_a_directory
check_target overwrite (some (file_node content perm)) =
    if overwrite then none else some file_exists

-- `p.Overwrite == nil || *p.Overwrite`
unfoldable pub may_overwrite : Option Bool → Bool
may_overwrite none = true
may_overwrite (some b) = b

-- Behind the checks of the payload.
unfoldable pub write_content : WriteOs → WriteFileParams → Text → Bytes → Fs → WriteResult
unfolding make_dirs_and_install check_target may_overwrite stat
write_content os p path content fs =
    elim (check_target (may_overwrite p.overwrite) (stat os fs path)) [
      | some code ↦ (fs, failed (file_error code))
      | none ↦ make_dirs_and_install os p.create_dirs path p.mode content (stat os fs path) fs
    ]

-- `writeFileTransfer`
unfoldable pub write_file_transfer : WriteOs → WriteFileParams → Fs → WriteResult
unfolding write_content
write_file_transfer os p fs = elim (transfer_path p.path) [
  | failed e ↦ (fs, failed e)
  | done path ↦ elim (decode_string p.content_base64) [
    | none ↦ (fs, failed (file_error invalid_base64))
    | some content ↦
        if ltb max_file_transfer_bytes (length content)
        then (fs, failed (file_error file_too_large))
        else write_content os p path content fs
  ]
]
