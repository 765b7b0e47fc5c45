-- ===== src/System.antt =====
-- client/sysinfo.go and client/sysinfo_linux.go (client/sysinfo_windows.go in Windows): what `system_info` answers.
pub mod Memory
pub mod Uptime
pub mod Windows
use claude_distant.Common.{
  List, Option, [], if◌then◌else◌, inl, inr, ltb, none, some, ℕ, ◌*◌, ◌++◌, ◌+◌, ◌-◌, ◌/◌, ◌==◌,
  ◌^◌, ◌∷◌, ◌⊎◌,
}
use claude_distant.Common.Int.{pos, ℤ}
use claude_distant.Text.{Text, codes, equal, is_space}
use claude_distant.Text.Decimal.{is_digit}

-- `strings.Fields`: `cur` is the field that is being read.
unfoldable pub end_field : Text → List Text → List Text
end_field [] fields = fields
end_field (c ∷ cur) fields = (c ∷ cur) ∷ fields

unfoldable pub fields_from : Text → Text → List Text
unfolding end_field
fields_from cur [] = end_field cur []
fields_from cur (c ∷ s) =
    let ended = end_field cur (fields_from [] s) in
    let going = fields_from (cur ++ c ∷ []) s in if is_space c then ended else going

unfoldable pub fields_of : Text → List Text
unfolding fields_from
fields_of = fields_from []

-- `strings.TrimSuffix(s, ":")`
unfoldable pub trim_colon : Text → Text
trim_colon [] = []
trim_colon (c ∷ []) = if c == b':' then [] else c ∷ []
trim_colon (c ∷ d ∷ s) = c ∷ trim_colon (d ∷ s)

-- `strconv.ParseUint(s, 10, 64)`
unfoldable pub digits_value : ℕ → Text → Option ℕ
digits_value n [] = some n
digits_value n (c ∷ s) =
    let rest = digits_value (n * 10 + (c - b'0')) s in if is_digit c then rest else none

unfoldable pub in_uint64 : Option ℕ → Option ℕ
in_uint64 none = none
in_uint64 (some n) = if ltb n (2 ^ 64) then some n else none

unfoldable pub parse_uint : Text → Option ℕ
unfolding digits_value in_uint64
parse_uint [] = none
parse_uint (c ∷ s) = in_uint64 (digits_value 0 (c ∷ s))

-- The two entries of the map `values`.
pub record MemValues : Type 0 where
  pub mem_total : ℕ
  pub mem_available : ℕ

-- The assignment to the map, for the two keys that the loop lets through.
unfoldable pub put_value : Text → Option ℕ → MemValues → MemValues
put_value key none v = v
put_value key (some kb) v =
    if equal key (codes "MemTotal")
    then record v { mem_total = kb }
    else if equal key (codes "MemAvailable")
    then record v { mem_available = kb }
    else v

-- One round of the loop, by the fields of the line.
unfoldable pub read_fields : List Text → MemValues → MemValues
unfolding put_value trim_colon parse_uint
read_fields [] v = v
read_fields (key ∷ []) v = v
read_fields (key ∷ value ∷ more) v = put_value (trim_colon key) (parse_uint value) v

unfoldable pub read_lines : List Text → MemValues → MemValues
unfolding read_fields fields_of
read_lines [] v = v
read_lines (line ∷ lines) v = read_lines lines (read_fields (fields_of line) v)

-- `platformGetMemoryMB`: `scanned` is the error of `os.Open`, or the lines that the scanner gives with
-- the error that it ends with.
unfoldable pub platform_get_memory_mb : Text ⊎ (List Text × Option Text) → Text ⊎ (ℕ × ℕ)
unfolding read_lines
platform_get_memory_mb (inl err) = inl err
platform_get_memory_mb (inr (lines, some err)) = inl err
platform_get_memory_mb (inr (lines, none)) =
    let v = read_lines lines (record { mem_total = 0; mem_available = 0 }) in
    inr (v.mem_total / 1024, v.mem_available / 1024)

-- `SystemInfo`
pub record SystemInfo : Type 0 where
  pub os_name : Text
  pub hostname : Text
  pub uptime_secs : ℤ
  pub cpu_count : ℕ
  pub mem_total_mb : ℕ
  pub mem_avail_mb : ℕ

abbrev pub right_of {ℓ} : {A : Type ℓ} → A → Text ⊎ A → A
right_of other (inl err) = other
right_of other (inr a) = a

-- `GetSystemInfo`: what cannot be read keeps its zero value, and there is never an error.
unfoldable pub get_system_info : Text → ℕ → Text ⊎ Text → Text ⊎ ℤ → Text ⊎ (ℕ × ℕ) → SystemInfo
get_system_info goos cpus host uptime memory =
    let (total, avail) = right_of (0, 0) memory in
    record {
      os_name = goos;
      hostname = right_of (codes "unknown") host;
      uptime_secs = right_of (pos 0) uptime;
      cpu_count = cpus;
      mem_total_mb = total;
      mem_avail_mb = avail;
    }
