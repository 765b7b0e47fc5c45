-- ===== src/Tests/Transfers.antt =====
-- Runs of the transfers.
use claude_distant.Base64.RoundTrip.{AreBytes}
use claude_distant.Common.{Option, [], arith, false, inr, none, refl, some, subst, ◌∷◌, ◌≡◌}
use claude_distant.Common.Int.{is_negative, pos}
use claude_distant.FileTransfer.{done}
use claude_distant.FileTransfer.Read.{Emit, Reader, read_file_transfer, read_limit}
use claude_distant.FileTransfer.Read.Slice.{HoldsBytes, IsSlice, read_file_transfer-IsSlice}
use claude_distant.FileTransfer.Read.Success.{CanRead, read_file_transfer-IsExact}
use claude_distant.FileTransfer.Read.Whole.{IsExact, expected_meta}
use claude_distant.FileTransfer.Write.{Fs, Node, write_file_transfer}
use claude_distant.FileTransfer.Write.Atomic.{IsHonest, WriteOutcome, write_file_transfer_atomic}
use claude_distant.FileTransfer.Write.Leftover.{
  IsTidy, LeavesNoFile, write_file_transfer-LeavesNoFile,
}
use claude_distant.Protocol.{ReadFileParams, WriteFileParams}
use claude_distant.Tests.Setting.{free_name, no_files, one_file, read_machine, write_machine}
use claude_distant.Text.{Text, codes, trim_space}

abbrev wanted : ReadFileParams
wanted = record { path = codes "/tmp/a"; offset = pos 1; max_bytes = pos 3 }

abbrev to_write : WriteFileParams
to_write = record {
  path = codes "/tmp/note";
  content_base64 = codes "AP8Q";
  mode = codes "640";
  create_dirs = false;
  overwrite = none;
}

abbrev accepting : Emit
accepting seq s = none

one_file_only : (f : Reader) → read_machine.open_file [] ≡ inr f → one_file ≡ f
one_file_only f h = cc

opened_IsBytes : HoldsBytes read_machine
opened_IsBytes path f h = subst (λ (g : Reader). AreBytes g.rest) (one_file_only f h) (omega arith)

wanted-CanRead : CanRead read_machine wanted accepting one_file
wanted-CanRead = record {
  named = unfold trim_space in refl;
  offset_ok = unfold is_negative in refl;
  max_bytes_ok = unfold is_negative in refl;
  is_file = refl;
  opens = refl;
  seeks = refl;
  unbroken = refl;
  bytes = omega arith;
  accepts = λ seq s. refl;
}

read_file_transfer-IsExact_example :
    IsExact read_machine
      (codes "/tmp/a")
      (read_limit (pos 3))
      (20 ∷ 30 ∷ 40 ∷ 50 ∷ [])
      (read_file_transfer read_machine wanted accepting)
read_file_transfer-IsExact_example =
    read_file_transfer-IsExact read_machine wanted accepting one_file wanted-CanRead

wanted_read :
    (read_file_transfer read_machine wanted accepting).1
    ≡ done
        (expected_meta read_machine (codes "/tmp/a") (read_limit (pos 3)) (20 ∷ 30 ∷ 40 ∷ 50 ∷ []))
wanted_read = (read_file_transfer-IsExact read_machine wanted accepting one_file wanted-CanRead).1

read_file_transfer-IsSlice_example :
    IsSlice read_machine
      (codes "/tmp/a")
      1
      (read_limit (pos 3))
      (read_file_transfer read_machine wanted accepting)
read_file_transfer-IsSlice_example =
    read_file_transfer-IsSlice read_machine wanted accepting
      (expected_meta read_machine (codes "/tmp/a") (read_limit (pos 3)) (20 ∷ 30 ∷ 40 ∷ 50 ∷ []))
      opened_IsBytes wanted_read

free_name-IsFree :
    (fs : Fs) (o : Option Node)
    → fs (codes "/tmp/.claude-distant-1.part") ≡ o
    → (tmp : Text) → free_name o ≡ inr tmp
    → fs tmp ≡ none
free_name-IsFree fs none e tmp h = cc
free_name-IsFree fs (some node) e tmp h = cc

write_machine-IsHonest : IsHonest write_machine
write_machine-IsHonest = record {
  keeps_mkdir = λ d fs j n h. h;
  fresh = λ d fs tmp h. free_name-IsFree fs _ refl tmp h;
}

write_file_transfer_atomic_example :
    WriteOutcome write_machine to_write no_files
      (write_file_transfer write_machine to_write no_files).0
      (write_file_transfer write_machine to_write no_files).1
write_file_transfer_atomic_example =
    write_file_transfer_atomic write_machine to_write no_files write_machine-IsHonest

write_machine-IsTidy : IsTidy write_machine
write_machine-IsTidy = record { removes = refl; only_dirs = λ d fs j c perm h. h }

write_file_transfer-LeavesNoFile_example :
    LeavesNoFile to_write.path no_files (write_file_transfer write_machine to_write no_files)
write_file_transfer-LeavesNoFile_example =
    write_file_transfer-LeavesNoFile write_machine to_write no_files write_machine-IsTidy
