-- ===== src/FileTransfer/Write/Atomic.antt =====
-- A write installs its content whole or leaves the files that were there as they were.
use Prim.Native.Char.{code}
use claude_distant.Base64.{Bytes, decode_string}
use claude_distant.Common.{
  Bool, Bool-cases, Option, Option-cases, false, inl, inr, is_empty, length, ltb, ltb→ge, none,
  refl, some, true, ℕ, ◌∙◌, ◌≡◌, ◌≢◌, ◌≤◌, ◌⊎◌,
}
use claude_distant.FileTransfer.{
  OsError, Transfer, TransferError, done, failed, max_file_transfer_bytes, os_error, transfer_path,
}
use claude_distant.FileTransfer.Read.{hex}
use claude_distant.FileTransfer.Write.{
  Fs, Node, WriteMeta, WriteOs, WriteResult, after_create, after_write, check_target, discard,
  file_node, install, make_dirs_and_install, may_overwrite, put_node, rename_into, stat,
  write_content, write_file_transfer,
}
use claude_distant.FileTransfer.Write.Nodes.{
  put_node_kept, put_node_ne, put_node_self, put_node_twice,
}
use claude_distant.Protocol.{WriteFileParams}
use claude_distant.Text.{Text, trim_space}

-- What the operating system documents: `os.MkdirAll` leaves what exists, and `os.CreateTemp` creates
-- a file that did not exist.
pub record IsHonest (os : WriteOs) : Type 0 where
  pub keeps_mkdir :
      (d : Text) (fs : Fs) (j : Text) (n : Node) → fs j ≡ some n → (os.mkdir_all d fs).1 j ≡ some n
  pub fresh : (d : Text) (fs : Fs) (tmp : Text) → os.create_temp d fs ≡ inr tmp → fs tmp ≡ none

-- Whatever was there, but for the target, is there unchanged.
abbrev pub KeepsOthers : Text → Fs → Fs → Type 0
KeepsOthers path fs fs' = (j : Text) (n : Node) → j ≢ path → fs j ≡ some n → fs' j ≡ some n

abbrev pub Keeps : Fs → Fs → Type 0
Keeps fs fs' = (j : Text) (n : Node) → fs j ≡ some n → fs' j ≡ some n

-- The target holds the content, and the report is about it.
pub record Installed (os : WriteOs) (path : Text) (content : Bytes) (fs' : Fs) (info : WriteMeta)
    : Type 0 where
  pub perm : ℕ
  pub at_path : fs' path ≡ some (file_node content perm)
  pub reported :
      info
      ≡ record { path = path; bytes_written = length content; sha256 = hex (os.sha256 content) }

-- A failure keeps everything; a success installs the content and keeps everything else.
abbrev pub SafeWith : WriteOs → Text → Bytes → Fs → Fs → Transfer WriteMeta → Type 0
SafeWith os path content fs fs' (failed e) = Keeps fs fs'
SafeWith os path content fs fs' (done info) =
    Installed os path content fs' info × KeepsOthers path fs fs'

abbrev pub IsSafe : WriteOs → Text → Bytes → Fs → WriteResult → Type 0
IsSafe os path content fs r = SafeWith os path content fs r.0 r.1

module _ (os : WriteOs) (path : Text) (content : Bytes) where
  discard-IsSafe :
      (tmp : Text) (node : Option Node) (fs : Fs) (e : TransferError)
      → fs tmp ≡ none
      → IsSafe os path content fs (discard os tmp (put_node tmp node fs) e)
  unfolding discard
  discard-IsSafe tmp node fs e f j n h = elim (Bool-cases os.remove_fails) [
    | inl left ↦ rw left (put_node_kept tmp j node fs n f h)
    | inr gone ↦ rw gone (put_node_twice tmp none node fs j ∙ put_node_kept tmp j none fs n f h)
  ]

  rename_into-IsSafe :
      (tmp : Text) (perm : ℕ) (fs : Fs)
      → fs tmp ≡ none
      → IsSafe os path content fs
          (rename_into os tmp path content perm (put_node tmp (some (file_node content perm)) fs))
  unfolding rename_into
  rename_into-IsSafe tmp perm fs f = elim (Option-cases os.rename_error) [
    | inr (e, bad) ↦ rw (bad, rename_into) (discard-IsSafe tmp _ fs (os_error e) f)
    | inl ok ↦
        rw (ok, rename_into)
          (
            record { perm = perm; at_path = put_node_self path _ _; reported = refl },
            (λ j n other h.
                put_node_ne path j _ _ other
                ∙ put_node_twice tmp none _ fs j
                ∙ put_node_kept tmp j none fs n f h),
          )
  ]

module _ (os : WriteOs) (honest : IsHonest os) (path : Text) (content : Bytes) where
  after_write-IsSafe :
      (mode : Text) (existing : Option Node) (fs : Fs) (tmp : Text) (o : Option OsError)
      → fs tmp ≡ none
      → IsSafe os path content fs (after_write os path mode content existing fs tmp o)
  unfolding after_write
  after_write-IsSafe mode existing fs tmp (some e) f =
      discard-IsSafe os path content tmp _ fs (os_error e) f
  after_write-IsSafe mode existing fs tmp none f = rename_into-IsSafe os path content tmp _ fs f

  after_create-IsSafe :
      (mode : Text) (existing : Option Node) (fs : Fs) (o : OsError ⊎ Text)
      → os.create_temp (os.dir_of path) fs ≡ o
      → IsSafe os path content fs (after_create os path mode content existing fs o)
  unfolding after_create
  after_create-IsSafe mode existing fs (inl e) h = λ j n k. k
  after_create-IsSafe mode existing fs (inr tmp) h =
      after_write-IsSafe mode existing fs tmp _ (honest.fresh (os.dir_of path) fs tmp h)

  install-IsSafe :
      (mode : Text) (existing : Option Node) (fs : Fs)
      → IsSafe os path content fs (install os path mode content existing fs)
  unfolding install
  install-IsSafe mode existing fs = after_create-IsSafe mode existing fs _ refl

  -- What holds behind more directories holds from the start.
  from_mkdir :
      (d : Text) (fs : Fs) (r : WriteResult)
      → IsSafe os path content (os.mkdir_all d fs).1 r
      → IsSafe os path content fs r
  from_mkdir d fs (fs', failed e) s = λ j n h. s j n (honest.keeps_mkdir d fs j n h)
  from_mkdir d fs (fs', done info) (i, s) =
      (i, (λ j n other h. s j n other (honest.keeps_mkdir d fs j n h)))

  make_dirs_and_install-IsSafe :
      (create_dirs : Bool) (mode : Text) (existing : Option Node) (fs : Fs)
      → IsSafe os path content fs
          (make_dirs_and_install os create_dirs path mode content existing fs)
  unfolding make_dirs_and_install
  make_dirs_and_install-IsSafe false mode existing fs = install-IsSafe mode existing fs
  make_dirs_and_install-IsSafe true mode existing fs =
      let d = os.dir_of path in
      elim (Option-cases (os.mkdir_all d fs).0) [
        | inr (e, bad) ↦ rw (bad, make_dirs_and_install) (λ j n h. honest.keeps_mkdir d fs j n h)
        | inl made ↦
            rw (made, make_dirs_and_install)
              (from_mkdir d fs _ (install-IsSafe mode existing (os.mkdir_all d fs).1))
      ]

  write_content-IsSafe :
      (p : WriteFileParams) (fs : Fs)
      → IsSafe os path content fs (write_content os p path content fs)
  unfolding write_content
  write_content-IsSafe p fs =
      elim (Option-cases (check_target (may_overwrite p.overwrite) (stat os fs path))) [
        | inr (code, bad) ↦ rw (bad, write_content) (λ j n h. h)
        | inl free ↦
            rw (free, write_content) (make_dirs_and_install-IsSafe p.create_dirs p.mode _ fs)
      ]

-- What a write may do: with a failure everything that was there is unchanged; with a success the
-- target holds exactly the decoded payload, which is within the size limit.
abbrev pub WriteOutcome : WriteOs → WriteFileParams → Fs → Fs → Transfer WriteMeta → Type 0
WriteOutcome os p fs fs' (failed e) = Keeps fs fs'
WriteOutcome os p fs fs' (done info) =
    (content : Bytes) × (decode_string p.content_base64 ≡ some content)
    × (length content ≤ max_file_transfer_bytes)
    × Installed os p.path content fs' info
    × KeepsOthers p.path fs fs'

outcome_of_safe :
    (os : WriteOs) (p : WriteFileParams) (fs : Fs) (content : Bytes) (r : WriteResult)
    → decode_string p.content_base64 ≡ some content
    → length content ≤ max_file_transfer_bytes
    → IsSafe os p.path content fs r
    → WriteOutcome os p fs r.0 r.1
outcome_of_safe os p fs content (fs', failed e) d le s = s
outcome_of_safe os p fs content (fs', done info) d le (i, k) = (content, d, le, i, k)

-- A write is atomic. If it fails, at whatever step, every file and directory that existed is
-- unchanged, the target included. If it succeeds, the target holds exactly the decoded payload, of
-- at most the allowed size, the report has its path, size and hash, and everything else that
-- existed is unchanged.
pub write_file_transfer_atomic :
    (os : WriteOs) (p : WriteFileParams) (fs : Fs)
    → IsHonest os
    → WriteOutcome os p fs (write_file_transfer os p fs).0 (write_file_transfer os p fs).1
unfolding write_file_transfer transfer_path
write_file_transfer_atomic os p fs honest = elim (Bool-cases (is_empty (trim_space p.path))) [
  | inl missing ↦ rw (missing, write_file_transfer) (λ j n h. h)
  | inr named ↦ elim (Option-cases (decode_string p.content_base64)) [
    | inl bad ↦ rw (named, bad, write_file_transfer) (λ j n h. h)
    | inr (content, ok) ↦ elim (Bool-cases (ltb max_file_transfer_bytes (length content))) [
      | inl large ↦ rw (named, ok, large, write_file_transfer) (λ j n h. h)
      | inr fits ↦
          rw (named, ok, fits, write_file_transfer)
            (outcome_of_safe os p fs content _ ok (ltb→ge _ _ fits)
              (write_content-IsSafe os honest p.path content p fs))
    ]
  ]
]
