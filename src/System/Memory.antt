-- ===== src/System/Memory.antt =====
-- What `platformGetMemoryMB` of client/sysinfo_linux.go reads.
use claude_distant.Common.{
  All, All-append, Bool-cases, List, Option, [], ap, append-nil, append_assoc, arith, false,
  if◌then◌else◌, inl, inr, is_empty, lt→ltb, map, none, refl, some, suc, sym, true, zero, ℕ, ◌%◌,
  ◌*◌, ◌++◌, ◌+◌, ◌-◌, ◌/◌, ◌<◌, ◌^◌, ◌∙◌, ◌∷◌, ◌≡◌,
}
use claude_distant.System.{
  MemValues, digits_value, end_field, fields_from, fields_of, in_uint64, parse_uint,
  platform_get_memory_mb, put_value, read_fields, read_lines, trim_colon,
}
use claude_distant.Text.{Text, codes, equal, is_space}
use claude_distant.Text.Decimal.{
  AllDigits, decimal, decimal-AllDigits, digits, is_digit, value_from, value_from-decimal,
}
use claude_distant.Text.Laws.{equal_iff}

-- A word of a line: not empty and without white space.
abbrev pub IsWord : Text → Type 0
IsWord w = (is_empty w ≡ false) × All (λ c. is_space c ≡ false) w

fields_from-word :
    (cur w s : Text)
    → All (λ c. is_space c ≡ false) w
    → fields_from cur (w ++ s) ≡ fields_from (cur ++ w) s
unfolding fields_from
fields_from-word cur [] s h = ap (λ (x : Text). fields_from x s) (sym (append-nil cur))
fields_from-word cur (c ∷ w) s h = rw h.0 (
    fields_from-word (cur ++ c ∷ []) w s h.1
    ∙ ap (λ (x : Text). fields_from x s) (append_assoc cur (c ∷ []) w))

fields_from-space :
    (w s : Text) → is_empty w ≡ false → fields_from w (b' ' ∷ s) ≡ w ∷ fields_from [] s
unfolding fields_from end_field is_space
fields_from-space [] s h = cc
fields_from-space (c ∷ w) s h = refl

-- `n` spaces.
unfoldable pub spaces : ℕ → Text
spaces zero = []
spaces (suc n) = b' ' ∷ spaces n

fields_from-spaces : (n : ℕ) (s : Text) → fields_from [] (spaces n ++ s) ≡ fields_from [] s
unfolding spaces fields_from end_field is_space
fields_from-spaces zero s = refl
fields_from-spaces (suc n) s = fields_from-spaces n s

-- A line of /proc/meminfo: a key, how far its number stands behind it, and the number.
pub record MemEntry : Type 0 where
  pub mem_key : Text
  pub gap : ℕ
  pub kb : ℕ

unfoldable pub mem_line : MemEntry → Text
unfolding spaces decimal
mem_line e = e.mem_key ++ (b':' ∷ (spaces (suc e.gap) ++ (decimal e.kb ++ codes " kB")))

-- The key is a word, and the number fits 64 bits.
abbrev pub IsEntry : MemEntry → Type 0
IsEntry e = IsWord e.mem_key × (e.kb < 2 ^ 64)

digits_plain : (s : Text) → AllDigits s → All (λ c. is_space c ≡ false) s
unfolding is_digit is_space
digits_plain [] h = tt
digits_plain (c ∷ s) h = (ground arith, digits_plain s h.1)

is_empty-digits : (fuel n c : ℕ) (out : Text) → is_empty (digits fuel n (c ∷ out)) ≡ false
unfolding digits
is_empty-digits zero n c out = refl
is_empty-digits (suc fuel) n c out =
    ground (arith, is_empty-digits fuel (n / 10) (b'0' + n % 10) (c ∷ out))

is_empty-decimal : (n : ℕ) → is_empty (decimal n) ≡ false
unfolding decimal digits
is_empty-decimal n = ground (arith, is_empty-digits n (n / 10) (b'0' + n % 10) [])

decimal-IsWord : (n : ℕ) → IsWord (decimal n)
decimal-IsWord n = (is_empty-decimal n, digits_plain (decimal n) (decimal-AllDigits n))

fields_of-word : (w s : Text) → IsWord w → fields_from [] (w ++ (b' ' ∷ s)) ≡ w ∷ fields_from [] s
fields_of-word w s h = fields_from-word [] w (b' ' ∷ s) h.1 ∙ fields_from-space w s h.0

trim_colon-append : (k : Text) → trim_colon (k ++ b':' ∷ []) ≡ k
unfolding trim_colon
trim_colon-append [] = refl
trim_colon-append (c ∷ []) = refl
trim_colon-append (c ∷ d ∷ k) = ap (◌∷◌ c) (trim_colon-append (d ∷ k))

digits_value-AllDigits : (n : ℕ) (s : Text) → AllDigits s → digits_value n s ≡ some (value_from n s)
unfolding digits_value value_from
digits_value-AllDigits n [] h = refl
digits_value-AllDigits n (c ∷ s) h = rw h.0 (digits_value-AllDigits (n * 10 + (c - b'0')) s h.1)

parse_uint-digits :
    (s : Text) (n : ℕ)
    → AllDigits s
    → is_empty s ≡ false
    → value_from 0 s ≡ n
    → n < 2 ^ 64
    → parse_uint s ≡ some n
unfolding parse_uint in_uint64
parse_uint-digits [] n h e v b = cc
parse_uint-digits (c ∷ s) n h e v b =
    rw (digits_value-AllDigits 0 (c ∷ s) h, v, lt→ltb n (2 ^ 64) b) refl

parse_uint-decimal : (n : ℕ) → n < 2 ^ 64 → parse_uint (decimal n) ≡ some n
parse_uint-decimal n h =
    parse_uint-digits (decimal n) n (decimal-AllDigits n) (is_empty-decimal n)
      (value_from-decimal n) h

key_with_colon : (w : Text) → IsWord w → IsWord (w ++ b':' ∷ [])
unfolding is_space
key_with_colon [] h = cc
key_with_colon (c ∷ w) h = (refl, All-append _ (c ∷ w) (b':' ∷ []) h.1 (refl, tt))

unit_fields : fields_from [] (codes "kB") ≡ codes "kB" ∷ []
unfolding fields_from end_field is_space
unit_fields = refl

mem_line-fields :
    (e : MemEntry)
    → IsEntry e
    → fields_of (mem_line e) ≡ (e.mem_key ++ b':' ∷ []) ∷ decimal e.kb ∷ codes "kB" ∷ []
unfolding fields_of mem_line spaces
mem_line-fields e h =
    let key = e.mem_key ++ b':' ∷ [] in
    let rest = spaces e.gap ++ (decimal e.kb ++ codes " kB") in
    ap (fields_from []) (sym (append_assoc e.mem_key (b':' ∷ []) (b' ' ∷ rest)))
    ∙ fields_of-word key rest (key_with_colon e.mem_key h.0)
    ∙ ap (◌∷◌ key) (
        fields_from-spaces e.gap (decimal e.kb ++ codes " kB")
        ∙ fields_of-word (decimal e.kb) (codes "kB") (decimal-IsWord e.kb)
        ∙ ap (◌∷◌ (decimal e.kb)) unit_fields)

mem_line-read :
    (e : MemEntry) (v : MemValues)
    → IsEntry e
    → read_fields (fields_of (mem_line e)) v ≡ put_value e.mem_key (some e.kb) v
unfolding read_fields
mem_line-read e v h =
    ap (λ (fs : List Text). read_fields fs v) (mem_line-fields e h)
    ∙ ap (λ (k : Text). put_value k (parse_uint (decimal e.kb)) v) (trim_colon-append e.mem_key)
    ∙ ap (λ (o : Option ℕ). put_value e.mem_key o v) (parse_uint-decimal e.kb h.1)

-- The number of the last entry with a key, or another one where there is none.
unfoldable pub last_value : Text → ℕ → List MemEntry → ℕ
last_value key n [] = n
last_value key n (e ∷ es) = last_value key (if equal e.mem_key key then e.kb else n) es

total_only :
    (key : Text) → equal key (codes "MemTotal") ≡ true → equal key (codes "MemAvailable") ≡ false
total_only key h =
    ap (λ (k : Text). equal k (codes "MemAvailable")) ((equal_iff key (codes "MemTotal")).0 h)
    ∙ (unfold equal in refl)

put_value-last :
    (key : Text) (kb : ℕ) (v : MemValues)
    → ((put_value key (some kb) v).mem_total
        ≡ (if equal key (codes "MemTotal") then kb else v.mem_total))
      × ((put_value key (some kb) v).mem_available
          ≡ (if equal key (codes "MemAvailable") then kb else v.mem_available))
unfolding put_value
put_value-last key kb v = elim (Bool-cases (equal key (codes "MemTotal"))) [
  | inl total ↦ rw (total, put_value, total_only key total) (refl, refl)
  | inr other ↦ rw (other, put_value) (ground arith)
]

read_lines-last :
    (es : List MemEntry) (v : MemValues)
    → All IsEntry es
    → ((read_lines (map mem_line es) v).mem_total ≡ last_value (codes "MemTotal") v.mem_total es)
      × ((read_lines (map mem_line es) v).mem_available
          ≡ last_value (codes "MemAvailable") v.mem_available es)
unfolding read_lines last_value
read_lines-last [] v h = (refl, refl)
read_lines-last (e ∷ es) v h =
    let (total, avail) = put_value-last e.mem_key e.kb v in
    let step = mem_line-read e v h.0 in
    let (t, a) = read_lines-last es (put_value e.mem_key (some e.kb) v) h.1 in
    (
      ap (λ (x : MemValues). (read_lines (map mem_line es) x).mem_total) step
          ∙ t
          ∙ ap (λ n. last_value (codes "MemTotal") n es) total,
      ap (λ (x : MemValues). (read_lines (map mem_line es) x).mem_available) step
          ∙ a
          ∙ ap (λ n. last_value (codes "MemAvailable") n es) avail,
    )

-- From lines in the form of /proc/meminfo, in any order and with any keys and gaps, the total and the
-- available memory are read as the numbers of their entries, in whole mebibytes, and as 0 where an
-- entry is missing; of two entries with a key the last one counts.
pub platform_get_memory_mb_lem :
    (es : List MemEntry)
    → All IsEntry es
    → platform_get_memory_mb (inr (map mem_line es, none))
      ≡ inr
          (last_value (codes "MemTotal") 0 es / 1024, last_value (codes "MemAvailable") 0 es / 1024)
unfolding platform_get_memory_mb
platform_get_memory_mb_lem es h =
    let (t, a) = read_lines-last es (record { mem_total = 0; mem_available = 0 }) h in cc (t, a)
