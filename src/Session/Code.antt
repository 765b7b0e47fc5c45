-- ===== src/Session/Code.antt =====
-- The session code: client/identity.go, and `resolveDesiredCode` and `formatSessionCode` of
-- client/main.go. HMAC-SHA-256 is a parameter.
use claude_distant.Base64.{Bytes}
use claude_distant.Common.{
  Bool, Bool-cases, List, Option, [], ap, arith, drop, false, if◌then◌else◌, inl, inr, length, none,
  refl, some, sym, take, take-append-drop, true, ℕ, ◌%◌, ◌*◌, ◌++◌, ◌+◌, ◌==◌, ◌^◌, ◌∙◌, ◌∷◌, ◌≡◌,
  ◌⊎◌,
}
use claude_distant.Text.{Text, codes}
use claude_distant.Text.Decimal.{
  AllDigits, decimal_padded, decimal_padded-AllDigits, is_digit, length-decimal_padded,
}

-- `MachineID`, by the platform's identifier and the host name; `none` is an error.
unfoldable pub host_id : Option Text → Option Text
host_id none = none
host_id (some []) = none
host_id (some (c ∷ host)) = some (c ∷ host)

unfoldable pub machine_id : Option Text → Option Text → Option Text
unfolding host_id
machine_id none host = host_id host
machine_id (some []) host = host_id host
machine_id (some (c ∷ id)) host = some (c ∷ id)

-- `binary.BigEndian.Uint64`
unfoldable pub big_endian : ℕ → Bytes → ℕ
big_endian n [] = n
big_endian n (x ∷ bytes) = big_endian (n * 256 + x) bytes

-- `DeriveSessionCode`
unfoldable pub derive_session_code : (Text → Text → Bytes) → Text → Text → Text
derive_session_code hmac secret machine =
    decimal_padded 9 (big_endian 0 (take 8 (hmac secret machine)) % 10 ^ 9)

abbrev pub default_identity_salt : Text
default_identity_salt = codes "claude-distant-default-identity-salt-v1"

abbrev pub or_else : Text → Text → Text
or_else [] other = other
or_else (c ∷ s) other = c ∷ s

-- `resolveDesiredCode` behind the machine's identifier.
unfoldable pub code_for : (Text → Text → Bytes) → Text → Option Text → Text
unfolding derive_session_code
code_for hmac secret none = []
code_for hmac secret (some []) = []
code_for hmac secret (some (c ∷ id)) =
    derive_session_code hmac (or_else secret default_identity_salt) (c ∷ id)

-- `resolveDesiredCode`, by `cfg.ephemeralCode`, `cfg.identitySecret` and `machineID`.
unfoldable pub resolve_desired_code : (Text → Text → Bytes) → Bool → Text → Option Text → Text
unfolding code_for
resolve_desired_code hmac true secret id = []
resolve_desired_code hmac false secret id = code_for hmac secret id

-- The digits of a text.
unfoldable pub keep_digits : Text → Text
keep_digits [] = []
keep_digits (c ∷ s) = if is_digit c then c ∷ keep_digits s else keep_digits s

-- Nine digits, in three groups.
unfoldable pub grouped : Text → Text
grouped d = take 3 d ++ (b' ' ∷ (take 3 (drop 3 d) ++ (b' ' ∷ drop 6 d)))

-- `formatSessionCode`
unfoldable pub format_session_code : Text → Text
unfolding grouped keep_digits
format_session_code session_code =
    let d = keep_digits session_code in if length d == 9 then grouped d else session_code

-- `printSessionCode`: the lines.
unfoldable pub print_session_code : Text → List Text
unfolding format_session_code
print_session_code session_code =
    []
    ∷ codes "========================================"
    ∷ (codes "  Code de session : " ++ format_session_code session_code)
    ∷ codes "  Communiquez ce code à l'opérateur."
    ∷ codes "========================================"
    ∷ []
    ∷ codes "Journal d'activité — chaque commande reçue du harnais s'affiche ici :"
    ∷ []

derive_session_code-AllDigits :
    (hmac : Text → Text → Bytes) (secret machine : Text)
    → (length (derive_session_code hmac secret machine) ≡ 9)
      × AllDigits (derive_session_code hmac secret machine)
unfolding derive_session_code
derive_session_code-AllDigits hmac secret machine =
    let n = big_endian 0 (take 8 (hmac secret machine)) in
    (length-decimal_padded 8 (n % 10 ^ 9) (omega arith), decimal_padded-AllDigits 9 (n % 10 ^ 9))

-- A code of nine digits, or none.
abbrev pub IsCode : Text → Type 0
IsCode s = (s ≡ []) ⊎ ((length s ≡ 9) × AllDigits s)

code_for-IsCode :
    (hmac : Text → Text → Bytes) (secret : Text) (id : Option Text)
    → IsCode (code_for hmac secret id)
unfolding code_for
code_for-IsCode hmac secret none = inl refl
code_for-IsCode hmac secret (some []) = inl refl
code_for-IsCode hmac secret (some (c ∷ id)) = inr (derive_session_code-AllDigits hmac _ (c ∷ id))

-- The client asks the relay for no code, or for one of exactly nine digits, leading zeros included,
-- whatever the machine and the secret are, and whatever the hash gives.
pub resolve_desired_code-IsCode :
    (hmac : Text → Text → Bytes) (ephemeral : Bool) (secret : Text) (id : Option Text)
    → IsCode (resolve_desired_code hmac ephemeral secret id)
unfolding resolve_desired_code
resolve_desired_code-IsCode hmac true secret id = inl refl
resolve_desired_code-IsCode hmac false secret id = code_for-IsCode hmac secret id

keep_digits-append : (s t : Text) → keep_digits (s ++ t) ≡ keep_digits s ++ keep_digits t
unfolding keep_digits
keep_digits-append [] t = refl
keep_digits-append (c ∷ s) t = ground (arith, keep_digits-append s t)

keep_digits-AllDigits : (s : Text) → AllDigits (keep_digits s)
unfolding keep_digits
keep_digits-AllDigits [] = tt
keep_digits-AllDigits (c ∷ s) = ground (arith, keep_digits-AllDigits s)

keep_digits_all : (s : Text) → AllDigits s → keep_digits s ≡ s
unfolding keep_digits
keep_digits_all [] h = refl
keep_digits_all (c ∷ s) h = rw (h.0, keep_digits_all s h.1) refl

keep_digits-space : (s : Text) → keep_digits (b' ' ∷ s) ≡ keep_digits s
unfolding keep_digits is_digit
keep_digits-space s = refl

drop_six : (d : Text) → drop 6 d ≡ drop 3 (drop 3 d)
drop_six [] = refl
drop_six (a ∷ []) = refl
drop_six (a ∷ b ∷ []) = refl
drop_six (a ∷ b ∷ c ∷ d) = refl

grouped_digits : (d : Text) → keep_digits (grouped d) ≡ keep_digits d
unfolding grouped
grouped_digits d =
    keep_digits-append (take 3 d) (b' ' ∷ (take 3 (drop 3 d) ++ (b' ' ∷ drop 6 d)))
    ∙ ap (◌++◌ (keep_digits (take 3 d))) (
        keep_digits-space (take 3 (drop 3 d) ++ (b' ' ∷ drop 6 d))
        ∙ keep_digits-append (take 3 (drop 3 d)) (b' ' ∷ drop 6 d)
        ∙ ap (◌++◌ (keep_digits (take 3 (drop 3 d))))
            (keep_digits-space (drop 6 d) ∙ ap keep_digits (drop_six d))
        ∙ sym (keep_digits-append (take 3 (drop 3 d)) (drop 3 (drop 3 d)))
        ∙ ap keep_digits (take-append-drop 3 (drop 3 d)))
    ∙ sym (keep_digits-append (take 3 d) (drop 3 d))
    ∙ ap keep_digits (take-append-drop 3 d)

-- The displayed code has the digits of the code, in order, and nothing is lost or added.
pub format_session_code_digits :
    (session_code : Text)
    → keep_digits (format_session_code session_code) ≡ keep_digits session_code
unfolding format_session_code
format_session_code_digits session_code =
    elim (Bool-cases (length (keep_digits session_code) == 9)) [
      | inr other ↦ rw (other, format_session_code) refl
      | inl nine ↦
          rw (nine, format_session_code)
            (grouped_digits (keep_digits session_code)
              ∙ keep_digits_all (keep_digits session_code) (keep_digits-AllDigits session_code))
    ]
