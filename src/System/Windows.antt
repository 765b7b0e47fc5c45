-- ===== src/System/Windows.antt =====
-- client/sysinfo_windows.go: the uptime and the memory of a Windows machine. The calls of kernel32.dll
-- are parameters.
use claude_distant.Common.{if◌then◌else◌, inl, inr, ℕ, ◌*◌, ◌++◌, ◌+◌, ◌/◌, ◌==◌, ◌⊎◌}
use claude_distant.Text.{Text, codes}

-- `memoryStatusEx`
pub record MemoryStatusEx : Type 0 where
  pub cb_size : ℕ
  pub dw_memory_load : ℕ
  pub ull_total_phys : ℕ
  pub ull_avail_phys : ℕ
  pub ull_total_page_file : ℕ
  pub ull_avail_page_file : ℕ
  pub ull_total_virtual : ℕ
  pub ull_avail_virtual : ℕ
  pub ull_avail_extended_virtual : ℕ

-- `var status memoryStatusEx`
abbrev pub zero_status : MemoryStatusEx
zero_status = record {
  cb_size = 0;
  dw_memory_load = 0;
  ull_total_phys = 0;
  ull_avail_phys = 0;
  ull_total_page_file = 0;
  ull_avail_page_file = 0;
  ull_total_virtual = 0;
  ull_avail_virtual = 0;
  ull_avail_extended_virtual = 0;
}

-- `unsafe.Sizeof(status)`: two fields of four bytes and seven of eight.
abbrev pub status_size : ℕ
status_size = 2 * 4 + 7 * 8

-- `platformGetUptimeSeconds`; `tick_count` is what `GetTickCount64` returns, below 2^64, so that the
-- seconds fit into an `int64`.
unfoldable pub uptime_from_ticks : ℕ → ℕ
uptime_from_ticks tick_count = tick_count / 1000

abbrev pub mebibyte : ℕ
mebibyte = 1024 * 1024

-- Behind the call, by whether it returned zero, its error, and what it made of the struct.
unfoldable pub memory_of_status : ℕ × Text × MemoryStatusEx → Text ⊎ (ℕ × ℕ)
memory_of_status (r0, call_error, status) =
    if r0 == 0
    then inl (codes "GlobalMemoryStatusEx: " ++ call_error)
    else inr (status.ull_total_phys / mebibyte, status.ull_avail_phys / mebibyte)

-- `platformGetMemoryMB`; `global_memory_status_ex` fills the struct that it is given.
unfoldable pub get_memory_mb_windows : (MemoryStatusEx → ℕ × Text × MemoryStatusEx) → Text ⊎ (ℕ × ℕ)
unfolding memory_of_status
get_memory_mb_windows global_memory_status_ex =
    memory_of_status (global_memory_status_ex (record zero_status { cb_size = status_size }))
