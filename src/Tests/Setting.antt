-- ===== src/Tests/Setting.antt =====
-- The outside of the runs: a machine, a connection and an operator.
-- A decoder that takes the whole of the params for the command or the path.
use claude_distant.Common.{Option, [], false, inl, inr, none, some, true, ◌∷◌, ◌⊎◌}
use claude_distant.Common.Int.{pos}
use claude_distant.Executor.{Env, Executor, exited, new_executor}
use claude_distant.FileTransfer.{OsError, err_exist}
use claude_distant.FileTransfer.Read.{ReadOs, Reader}
use claude_distant.FileTransfer.Write.{Fs, Node, WriteOs}
use claude_distant.Policy.{Policy}
use claude_distant.Policy.Prompt.{Answer}
use claude_distant.Protocol.{CommandMessage, Json, stream_stdout}
use claude_distant.Text.{Text, codes}

abbrev pub plain_json : Json
plain_json = record {
  unmarshal_run = λ s. inr (record { command = s; shell = codes "bash"; timeout = pos 10 });
  unmarshal_read_file = λ s. inr (record { path = s; offset = pos 1; max_bytes = pos 3 });
  unmarshal_write_file = λ s. inr (record {
    path = s;
    content_base64 = codes "AP8Q";
    mode = [];
    create_dirs = false;
    overwrite = none;
  });
  compact = some;
}

abbrev pub one_file : Reader
one_file = record { rest = 10 ∷ 20 ∷ 30 ∷ 40 ∷ 50 ∷ []; broken = none }

abbrev pub read_machine : ReadOs
read_machine = record {
  stat_is_dir = λ path. inr false;
  open_file = λ path. inr one_file;
  seek_error = λ path. none;
  sha256 = λ bytes. 1 ∷ 2 ∷ [];
}

-- One name for a temporary file, unless something has it.
abbrev pub free_name : Option Node → OsError ⊎ Text
free_name none = inr (codes "/tmp/.claude-distant-1.part")
free_name (some node) = inl err_exist

abbrev pub write_machine : WriteOs
write_machine = record {
  stat_error = λ path. false;
  dir_of = λ path. codes "/tmp";
  mkdir_all = λ d fs. (none, fs);
  create_temp = λ d fs. free_name (fs (codes "/tmp/.claude-distant-1.part"));
  write_error = none;
  sync_error = none;
  close_error = none;
  chmod_fails = false;
  rename_error = none;
  remove_fails = false;
  sha256 = λ bytes. 1 ∷ 2 ∷ [];
}

abbrev pub says_always : Text → Answer
says_always d = record { approved = true; always = true }

abbrev pub machine : Env
machine = record {
  json = plain_json;
  goos = codes "linux";
  look_path = λ bin. none;
  run_process = λ c t. record {
    pipe_error = none;
    start_error = none;
    output = (stream_stdout, codes "ok\n") ∷ [];
    ended = exited (pos 0);
    deadline_passed = false;
  };
  collected_info = inr (codes "{}");
  confirm = some says_always;
  read_os = read_machine;
  write_os = write_machine;
  write_error = λ n m. none;
}

abbrev pub no_files : Fs
no_files path = none

abbrev pub client_with : Policy → Executor
client_with policy = new_executor (record { p = policy }) (codes "/tmp/ws") true no_files

abbrev pub remove_all : CommandMessage
remove_all = record {
  request_id = codes "r1";
  tool = codes "run_shell";
  params = codes "rm -rf /home";
}

abbrev pub write_note : CommandMessage
write_note = record {
  request_id = codes "r2";
  tool = codes "write_file";
  params = codes "/tmp/note";
}
