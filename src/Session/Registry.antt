-- ===== src/Session/Registry.antt =====
-- client/identity_windows.go: the identifier of a Windows machine, from its registry.
use claude_distant.Base64.{Bytes}
use claude_distant.Common.{
  Bool, List, Option, [], if◌then◌else◌, inl, inr, leb, ltb, none, some, suc, ℕ, ◌&&◌, ◌*◌, ◌++◌,
  ◌+◌, ◌-◌, ◌/◌, ◌==◌, ◌∷◌, ◌⊎◌,
}
use claude_distant.Text.{Text, codes}

-- The calls of the registry: `UTF16PtrFromString` fails on a text with a NUL, `RegOpenKeyEx` gives its
-- error or a key, and `RegQueryValueEx` gives the size of a value, or its bytes with their number.
pub record Registry : Type 0 where
  pub utf16_error : Text → Option Text
  pub open_key : Text → Text ⊎ ℕ
  pub query_size : ℕ → Text → Text ⊎ ℕ
  pub query_value : ℕ → Text → ℕ → Text ⊎ (Bytes × ℕ)

-- The loop over the buffer: `n` words, each of two bytes, the low one first. The buffer has them all,
-- since the call never says that it wrote more than it was given room for.
unfoldable pub words_of : ℕ → Bytes → List ℕ
words_of (suc n) (low ∷ high ∷ buf) = (low + 256 * high) ∷ words_of n buf
words_of n buf = []

-- `syscall.UTF16ToString`: up to the first NUL, with surrogates decoded. A lone surrogate, which has no
-- code point, stands for itself.
abbrev is_high : ℕ → Bool
is_high u = leb 0xD800 u && ltb u 0xDC00

abbrev is_low : ℕ → Bool
is_low u = leb 0xDC00 u && ltb u 0xE000

unfoldable pub utf16_to_string : List ℕ → Text
utf16_to_string [] = []
utf16_to_string (u ∷ []) = if u == 0 then [] else u ∷ []
utf16_to_string (u ∷ v ∷ us) =
    let behind_pair = utf16_to_string us in
    let behind_one = utf16_to_string (v ∷ us) in
    if u == 0
    then []
    else if is_high u && is_low v
    then ((u - 0xD800) * 0x400 + (v - 0xDC00) + 0x10000) ∷ behind_pair
    else u ∷ behind_one

-- The last test.
unfoldable pub guid_or_error : Text → Text ⊎ Text
guid_or_error [] = inl (codes "MachineGuid vide")
guid_or_error (c ∷ guid) = inr (c ∷ guid)

-- Behind the second call.
unfoldable pub guid_of_value : Text ⊎ (Bytes × ℕ) → Text ⊎ Text
unfolding guid_or_error words_of utf16_to_string
guid_of_value (inl err) = inl (codes "lecture de MachineGuid: " ++ err)
guid_of_value (inr (buf, buf_len)) = guid_or_error (utf16_to_string (words_of (buf_len / 2) buf))

-- Behind the first call, which gives the size.
unfoldable pub guid_of_size : Registry → ℕ → Text ⊎ ℕ → Text ⊎ Text
unfolding guid_of_value
guid_of_size r key (inl err) = inl (codes "lecture de MachineGuid (taille): " ++ err)
guid_of_size r key (inr buf_len) =
    if buf_len == 0
    then inl (codes "MachineGuid vide")
    else guid_of_value (r.query_value key (codes "MachineGuid") buf_len)

-- Behind the opening of the key, which is closed in the end whatever happens.
unfoldable pub guid_of_key : Registry → Option Text → Text ⊎ ℕ → Text ⊎ Text
unfolding guid_of_size
guid_of_key r name_error (inl err) =
    inl (codes "ouverture de la clé de registre Cryptography: " ++ err)
guid_of_key r (some err) (inr key) = inl err
guid_of_key r none (inr key) = guid_of_size r key (r.query_size key (codes "MachineGuid"))

abbrev pub cryptography_key : Text
cryptography_key = codes "SOFTWARE\\Microsoft\\Cryptography"

-- Behind the conversion of the key's path.
unfoldable pub guid_in : Registry → Option Text → Text ⊎ Text
unfolding guid_of_key
guid_in r (some err) = inl err
guid_in r none = guid_of_key r (r.utf16_error (codes "MachineGuid")) (r.open_key cryptography_key)

-- `platformMachineIDImpl`
unfoldable pub read_machine_guid : Registry → Text ⊎ Text
unfolding guid_in
read_machine_guid r = guid_in r (r.utf16_error cryptography_key)
