-- ===== src/System/Uptime.antt =====
-- `platformGetUptimeSeconds` of client/sysinfo_linux.go.
use claude_distant.Common.{List, Option, [], inl, inr, some, ◌∷◌, ◌⊎◌}
use claude_distant.Common.Int.{ℤ}
use claude_distant.System.{fields_of}
use claude_distant.Text.{Text, codes}

-- The first field of what was read; `parse_float` is `strconv.ParseFloat` with the conversion to `int64`.
unfoldable pub first_seconds : (Text → Text ⊎ ℤ) → List Text → Text ⊎ ℤ
first_seconds parse_float [] = inl (codes "format /proc/uptime inattendu")
first_seconds parse_float (field ∷ fields) = parse_float field

-- An error of the read counts only where nothing was read.
unfoldable pub uptime_read : (Text → Text ⊎ ℤ) → Text → Option Text → Text ⊎ ℤ
unfolding first_seconds fields_of
uptime_read parse_float [] (some err) = inl err
uptime_read parse_float buf err = first_seconds parse_float (fields_of buf)

-- `platformGetUptimeSeconds`: `opened` is the error of `os.Open`, or what `Read` puts into the buffer
-- with its error.
unfoldable pub platform_get_uptime_seconds :
    (Text → Text ⊎ ℤ) → Text ⊎ (Text × Option Text) → Text ⊎ ℤ
unfolding uptime_read
platform_get_uptime_seconds parse_float (inl err) = inl err
platform_get_uptime_seconds parse_float (inr (buf, err)) = uptime_read parse_float buf err
