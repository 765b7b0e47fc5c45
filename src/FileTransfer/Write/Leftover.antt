-- ===== src/FileTransfer/Write/Leftover.antt =====
-- A write leaves no file of its own behind, but the one that it installs.
-- No file is there that was not there before with the same content and permissions.
use Prim.Native.Char.{code}
use claude_distant.Base64.{Bytes, decode_string}
use claude_distant.Common.{
  Bool, Bool-cases, Option, Option-cases, false, if◌then◌else◌, inl, inr, is_empty, length, ltb,
  none, some, sym, true, ℕ, ◌∙◌, ◌≡◌, ◌≢◌, ◌⊎◌,
}
use claude_distant.FileTransfer.{
  OsError, Transfer, TransferError, done, failed, max_file_transfer_bytes, os_error, transfer_path,
}
use claude_distant.FileTransfer.Write.{
  Fs, Node, WriteMeta, WriteOs, WriteResult, after_create, after_write, check_target, discard,
  file_node, install, make_dirs_and_install, may_overwrite, put_node, rename_into, stat,
  write_content, write_file_transfer,
}
use claude_distant.FileTransfer.Write.Nodes.{put_node_ne}
use claude_distant.Protocol.{WriteFileParams}
use claude_distant.Text.{Text, equal, trim_space}

abbrev pub NoNewFile : Fs → Fs → Type 0
NoNewFile fs fs' =
    (j : Text) (content : Bytes) (perm : ℕ)
    → fs' j ≡ some (file_node content perm)
    → fs j ≡ some (file_node content perm)

-- The same for every path but one.
abbrev pub NoNewFileBut : Text → Fs → Fs → Type 0
NoNewFileBut path fs fs' =
    (j : Text) (content : Bytes) (perm : ℕ)
    → j ≢ path
    → fs' j ≡ some (file_node content perm)
    → fs j ≡ some (file_node content perm)

abbrev pub LeavesNone : Text → Fs → Fs → Transfer WriteMeta → Type 0
LeavesNone path fs fs' (failed e) = NoNewFile fs fs'
LeavesNone path fs fs' (done info) = NoNewFileBut path fs fs'

abbrev pub LeavesNoFile : Text → Fs → WriteResult → Type 0
LeavesNoFile path fs r = LeavesNone path fs r.0 r.1

-- Temporary files can be removed, and `os.MkdirAll` creates no file.
pub record IsTidy (os : WriteOs) : Type 0 where
  pub removes : os.remove_fails ≡ false
  pub only_dirs : (d : Text) (fs : Fs) → NoNewFile fs (os.mkdir_all d fs).1

removed_choice :
    (b : Bool) (v o : Option Node) (n : Node)
    → (if b then none else if b then v else o) ≡ some n
    → o ≡ some n
removed_choice true v o n h = cc
removed_choice false v o n h = h

-- What is there behind a removal was there before any change of that path.
removed_node :
    (k j : Text) (v : Option Node) (fs : Fs) (n : Node)
    → put_node k none (put_node k v fs) j ≡ some n
    → fs j ≡ some n
unfolding put_node
removed_node k j v fs n h = removed_choice (equal j k) v (fs j) n h

module _ (os : WriteOs) (tidy : IsTidy os) (path : Text) where
  discard-LeavesNoFile :
      (tmp : Text) (node : Option Node) (fs : Fs) (e : TransferError)
      → LeavesNoFile path fs (discard os tmp (put_node tmp node fs) e)
  unfolding discard
  discard-LeavesNoFile tmp node fs e =
      rw tidy.removes (λ j content perm h. removed_node tmp j node fs (file_node content perm) h)

  rename_into-LeavesNoFile :
      (tmp : Text) (content : Bytes) (perm : ℕ) (node : Option Node) (fs : Fs)
      → LeavesNoFile path fs (rename_into os tmp path content perm (put_node tmp node fs))
  unfolding rename_into
  rename_into-LeavesNoFile tmp content perm node fs = elim (Option-cases os.rename_error) [
    | inr (e, bad) ↦ rw (bad, rename_into) (discard-LeavesNoFile tmp node fs (os_error e))
    | inl ok ↦
        rw (ok, rename_into)
          (λ j content' perm' other h.
            removed_node tmp j node fs (file_node content' perm')
              (sym (put_node_ne path j _ _ other) ∙ h))
  ]

  after_write-LeavesNoFile :
      (mode : Text) (content : Bytes) (existing : Option Node) (fs : Fs) (tmp : Text)
      (o : Option OsError)
      → LeavesNoFile path fs (after_write os path mode content existing fs tmp o)
  unfolding after_write
  after_write-LeavesNoFile mode content existing fs tmp (some e) =
      discard-LeavesNoFile tmp _ fs (os_error e)
  after_write-LeavesNoFile mode content existing fs tmp none =
      rename_into-LeavesNoFile tmp content _ _ fs

  after_create-LeavesNoFile :
      (mode : Text) (content : Bytes) (existing : Option Node) (fs : Fs) (o : OsError ⊎ Text)
      → LeavesNoFile path fs (after_create os path mode content existing fs o)
  unfolding after_create
  after_create-LeavesNoFile mode content existing fs (inl e) = λ j c p h. h
  after_create-LeavesNoFile mode content existing fs (inr tmp) =
      after_write-LeavesNoFile mode content existing fs tmp _

  install-LeavesNoFile :
      (mode : Text) (content : Bytes) (existing : Option Node) (fs : Fs)
      → LeavesNoFile path fs (install os path mode content existing fs)
  unfolding install
  install-LeavesNoFile mode content existing fs =
      after_create-LeavesNoFile mode content existing fs _

  behind_mkdir :
      (d : Text) (fs : Fs) (r : WriteResult)
      → LeavesNoFile path (os.mkdir_all d fs).1 r
      → LeavesNoFile path fs r
  behind_mkdir d fs (fs', failed e) s = λ j c p h. tidy.only_dirs d fs j c p (s j c p h)
  behind_mkdir d fs (fs', done info) s =
      λ j c p other h. tidy.only_dirs d fs j c p (s j c p other h)

  make_dirs_and_install-LeavesNoFile :
      (create_dirs : Bool) (mode : Text) (content : Bytes) (existing : Option Node) (fs : Fs)
      → LeavesNoFile path fs (make_dirs_and_install os create_dirs path mode content existing fs)
  unfolding make_dirs_and_install
  make_dirs_and_install-LeavesNoFile false mode content existing fs =
      install-LeavesNoFile mode content existing fs
  make_dirs_and_install-LeavesNoFile true mode content existing fs =
      let d = os.dir_of path in
      elim (Option-cases (os.mkdir_all d fs).0) [
        | inr (e, bad) ↦ rw (bad, make_dirs_and_install) (tidy.only_dirs d fs)
        | inl made ↦
            rw (made, make_dirs_and_install)
              (behind_mkdir d fs _
                (install-LeavesNoFile mode content existing (os.mkdir_all d fs).1))
      ]

  write_content-LeavesNoFile :
      (p : WriteFileParams) (content : Bytes) (fs : Fs)
      → LeavesNoFile path fs (write_content os p path content fs)
  unfolding write_content
  write_content-LeavesNoFile p content fs =
      elim (Option-cases (check_target (may_overwrite p.overwrite) (stat os fs path))) [
        | inr (code, bad) ↦ rw (bad, write_content) (λ j c m h. h)
        | inl free ↦
            rw (free, write_content)
              (make_dirs_and_install-LeavesNoFile p.create_dirs p.mode content _ fs)
      ]

-- A write leaves nothing behind. Where temporary files can be removed and `os.MkdirAll` creates no
-- file, every file that is there after a failed write was there before it, with the same content and
-- permissions; and after a successful write the same holds of every path but the target.
pub write_file_transfer-LeavesNoFile :
    (os : WriteOs) (p : WriteFileParams) (fs : Fs)
    → IsTidy os
    → LeavesNoFile p.path fs (write_file_transfer os p fs)
unfolding write_file_transfer transfer_path
write_file_transfer-LeavesNoFile os p fs tidy = elim (Bool-cases (is_empty (trim_space p.path))) [
  | inl missing ↦ rw (missing, write_file_transfer) (λ j c m h. h)
  | inr named ↦ elim (Option-cases (decode_string p.content_base64)) [
    | inl bad ↦ rw (named, bad, write_file_transfer) (λ j c m h. h)
    | inr (content, ok) ↦ elim (Bool-cases (ltb max_file_transfer_bytes (length content))) [
      | inl large ↦ rw (named, ok, large, write_file_transfer) (λ j c m h. h)
      | inr fits ↦
          rw (named, ok, fits, write_file_transfer)
            (write_content-LeavesNoFile os tidy p.path p content fs)
    ]
  ]
]
