-- ===== src/Lib.antt =====
-- The Go client of claude-distant (client/), which runs on an operator's machine, takes commands from
-- a relay over a WebSocket, and runs them behind a local guard rail.
--
-- The parts and how they interact. The client reads its configuration and keeps a session open
-- (client/main.go) over a connection (client/wsconn.go). A session hands each `command` message to
-- `Executor.Handle` (client/executor.go), which describes it for the journal (client/commanddetail.go), asks the guard
-- rail (client/policy.go), and runs a process (client/executor.go) or transfers a file
-- (client/filetransfer.go). What it does is written to the relay as messages (client/protocol.go) and
-- to the activity journal (client/activitylog.go).
--
--   Common          tests, lists, options, integers: names and lemmas that every part uses
--   Text, Regex     what client/ uses of Go's strings, unicode, strconv, fmt and regexp
--   Base64          what client/filetransfer.go uses of encoding/base64, and base64DecodedLen
--   Policy          client/policy.go: Policy, PolicyController, destructivePatterns, PromptConfirm;
--                   Dangerous is about what the patterns must flag
--   Protocol        client/protocol.go; Wire is the object that each message is written as, Struct how
--                   encoding/json fills a struct, and Decode the types that the client decodes
--   LogLine         client/commanddetail.go
--   Activity        client/activitylog.go, and client/consolelog.go in Console
--   Shell           client/executor.go: resolveShell, buildShellArgv, splitArgv
--   FileTransfer    client/filetransfer.go: Read and Write are the two directions
--   Executor        client/executor.go: the state and the guard rail; Run, Files and Handle have the
--                   handlers, Shared the guard rail between handlers, ProcessTree client/proc_linux.go
--                   and client/proc_windows.go, and the other modules below it what holds of them
--   Session         client/main.go: runSession; Answers is about a session with its handlers, Reconnect
--                   and Pace about runForever, Code about client/identity.go and the session code,
--                   Machine about client/identity_linux.go, Registry about
--                   client/identity_windows.go, Config about parseConfigWithDefaults
--   Connection      client/wsconn.go; Deadline is about the read deadline, Heartbeat about heartbeatLoop
--                   of client/main.go, KillSwitch about the close code of a terminated session,
--                   Return about the reconnects over what the connections carry
--   Gui             client/gui.go: the log panel, the confirmation dialog (Dialog), the loops
--                   (Connection), the state and the callbacks of the window (Window), and runUI,
--                   where they run beside each other (Run)
--   Shutdown        client/lifecycle.go, client/secrets.go, client/workspace.go, the end of main in
--                   client/main.go and the removal of the binary in client/cleanup_binary.go
--   System          client/sysinfo.go, client/sysinfo_linux.go and client/sysinfo_windows.go
--   Startup         main of client/main.go as a whole, with what it leaves behind (Residue)
--   Tests           runs on concrete inputs
--
-- How code is read. A text is a list of code points; bytes that are no UTF-8 are left out. A handler
-- is a function from the executor and what is outside (a record of functions: `Env`, `ReadOs`,
-- `WriteOs`, `Json`) to the list of its effects, in order, and the executor behind it. Files are a
-- function from paths to what is there. An error is a value. A guard whose outcome decides what runs
-- next is a function by clauses on it.
--
-- Bounds and fuel. The loop of `readFileTransfer` runs on fuel: it gets one more than the limit, and
-- every round but the last sends a byte at least, so that this is enough. The other loops are
-- structural. A time limit is a 64-bit integer with its wrap-around written out. The size of a file
-- and the counters of a read are at most eight mebibytes, where nothing wraps around.
--
-- What is not modelled. The syntax of JSON, gorilla/websocket, processes, system calls, SHA-256 and the
-- clock are parameters, with the documented behaviour that a theorem uses as its hypothesis (`IsHonest`
-- for os.MkdirAll and os.CreateTemp, `IsTidy` for os.Remove, `HoldsBytes` for open files, `IsRandom` for
-- rand.Int63n, `IsDeadlined` for the reads of a WebSocket, `NamesDir` for os.MkdirTemp and os.RemoveAll). Each lock of the
-- client makes one method a step; handlers that run beside each other are runs whose effects are
-- interleaved, each with the executor that it finds and up to where the loss of the connection cuts it
-- off, but for the guard rail, which Executor/Shared has
-- step by step. The event loop of the window is a row of steps, and the layout of its
-- widgets is left out. The relay (relay/) is Python.
pub mod Common
pub mod Text
pub mod Regex
pub mod Policy
pub mod Protocol
pub mod Activity
pub mod Base64
pub mod LogLine
pub mod Shell
pub mod FileTransfer
pub mod Executor
pub mod Session
pub mod Connection
pub mod Gui
pub mod Shutdown
pub mod Startup
pub mod System
pub mod Tests
