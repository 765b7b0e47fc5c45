-- ===== src/Session/Machine.antt =====
-- client/identity_linux.go: the identifier of a Linux machine, and what `MachineID` of
-- client/identity.go makes of it.
use claude_distant.Common.{List, Option, [], none, refl, some, ◌∷◌, ◌≡◌}
use claude_distant.Session.Code.{host_id, machine_id, or_else}
use claude_distant.Text.{Text, codes, trim_space}

abbrev pub machine_id_paths : List Text
machine_id_paths = codes "/etc/machine-id" ∷ codes "/var/lib/dbus/machine-id" ∷ []

-- One round of the loop: nothing for a file that cannot be read or is blank.
unfoldable pub id_unless_blank : Text → Option Text
id_unless_blank [] = none
id_unless_blank (c ∷ id) = some (c ∷ id)

unfoldable pub id_in : Option Text → Option Text
unfolding id_unless_blank
id_in none = none
id_in (some b) = id_unless_blank (trim_space b)

abbrev pub id_or : Option Text → Option Text → Option Text
id_or (some id) later = some id
id_or none later = later

-- The loop over the paths; `read_file` is `os.ReadFile`.
unfoldable pub first_id : (Text → Option Text) → List Text → Option Text
unfolding id_in
first_id read_file [] = none
first_id read_file (path ∷ paths) = id_or (id_in (read_file path)) (first_id read_file paths)

-- `platformMachineIDImpl`; `none` is the error that no path could be read.
unfoldable pub platform_machine_id_impl : (Text → Option Text) → Option Text
unfolding first_id
platform_machine_id_impl read_file = first_id read_file machine_id_paths

-- What a source says without white space around it, and the first source that says something.
abbrev pub trimmed : Option Text → Text
trimmed none = []
trimmed (some b) = trim_space b

abbrev pub given : Option Text → Text
given none = []
given (some t) = t

abbrev pub unless_empty : Text → Option Text
unless_empty [] = none
unless_empty (c ∷ t) = some (c ∷ t)

id_in-eq : (o : Option Text) → id_in o ≡ unless_empty (trimmed o)
unfolding id_in
id_in-eq none = refl
id_in-eq (some b) = id_unless_blank-eq (trim_space b)
  where
    id_unless_blank-eq : (t : Text) → id_unless_blank t ≡ unless_empty t
    id_unless_blank-eq [] = refl
    id_unless_blank-eq (c ∷ t) = refl

host_id-eq : (o : Option Text) → host_id o ≡ unless_empty (given o)
unfolding host_id
host_id-eq none = refl
host_id-eq (some []) = refl
host_id-eq (some (c ∷ t)) = refl

choose_id :
    (a b : Text) (host : Option Text)
    → machine_id (id_or (unless_empty a) (id_or (unless_empty b) none)) host
      ≡ unless_empty (or_else (or_else a b) (given host))
unfolding machine_id
choose_id [] [] host = host_id-eq host
choose_id [] (c ∷ b) host = refl
choose_id (c ∷ a) b host = refl

-- A Linux machine has the first identifier that says something, of /etc/machine-id, of
-- /var/lib/dbus/machine-id and of the host name, where the files are read without the white space around
-- what they hold; and it has none only where all three are missing or empty.
pub machine_id-first :
    (read_file : Text → Option Text) (host : Option Text)
    → machine_id (platform_machine_id_impl read_file) host
      ≡ unless_empty (
          or_else
            (or_else
              (trimmed (read_file (codes "/etc/machine-id")))
              (trimmed (read_file (codes "/var/lib/dbus/machine-id"))))
            (given host))
unfolding platform_machine_id_impl first_id
machine_id-first read_file host = rw (id_in-eq (read_file (codes "/etc/machine-id"))) (
    rw (id_in-eq (read_file (codes "/var/lib/dbus/machine-id"))) (
      choose_id (trimmed (read_file (codes "/etc/machine-id")))
        (trimmed (read_file (codes "/var/lib/dbus/machine-id"))) host))
