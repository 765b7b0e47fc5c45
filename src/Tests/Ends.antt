-- ===== src/Tests/Ends.antt =====
-- Runs of the end of the client and of the reading of the machine's memory.
use claude_distant.Common.{All, List, [], arith, inr, map, none, refl, true, ◌++◌, ◌/◌, ◌∷◌, ◌≡◌}
use claude_distant.Shutdown.{RemoveOs, main_end, panicked}
use claude_distant.Shutdown.Clean.{IsClean, main_end-IsClean, started_client}
use claude_distant.System.{platform_get_memory_mb}
use claude_distant.System.Memory.{
  IsEntry, MemEntry, last_value, mem_line, platform_get_memory_mb_lem,
}
use claude_distant.Text.{codes, is_space}

abbrev linux : RemoveOs
linux = record {
  goos = codes "linux";
  executable = inr (codes "/opt/client");
  resolved_link = λ p. none;
  temp_path = λ name. codes "/tmp/" ++ name;
  pid = 42;
  remove_all_error = λ d. none;
  remove_error = none;
  write_error = none;
  start_error = none;
}

main_end-IsClean_example :
    let r =
      main_end linux
        (panicked (codes "boom"))
        (started_client (codes "/tmp/ws") (codes "s3") true) in
    IsClean linux (codes "/tmp/ws") (codes "s3") true r.0.1 r.0.0
main_end-IsClean_example =
    main_end-IsClean linux (panicked (codes "boom")) (codes "/tmp/ws") (codes "s3") true refl

abbrev mem_entries : List MemEntry
mem_entries =
    record { mem_key = codes "MemTotal"; gap = 7; kb = 16384000 }
    ∷ record { mem_key = codes "MemFree"; gap = 8; kb = 1024 }
    ∷ record { mem_key = codes "MemAvailable"; gap = 3; kb = 8192000 }
    ∷ []

mem_entries-IsEntry : All IsEntry mem_entries
unfolding is_space
mem_entries-IsEntry = ground arith

platform_get_memory_mb_lem_example :
    platform_get_memory_mb (inr (map mem_line mem_entries, none))
    ≡ inr (
      last_value (codes "MemTotal") 0 mem_entries / 1024,
      last_value (codes "MemAvailable") 0 mem_entries / 1024,
    )
platform_get_memory_mb_lem_example = platform_get_memory_mb_lem mem_entries mem_entries-IsEntry
