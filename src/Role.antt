-- ===== src/Role.antt =====
-- dsp/constants/roles.go
use run_dsp.Prelude.{ℕ, String, ◌≡◌, Bool, true, false, str_eq, if◌then◌else◌}
use run_dsp.Exec.{Outcome, ok, err, panicked}

-- A `uint8`: 0 is the consumer, 1 the provider, and `undefined n` is the byte n + 2.
pub data DataspaceRole : Type 0 where
  consumer : DataspaceRole
  provider : DataspaceRole
  undefined : ℕ → DataspaceRole

pub data RoleError : Type 0 where
  not_a_valid_role : String → RoleError

-- `ParseRole`; the value 255 that the source returns beside its error is never read.
unfoldable pub parse_role : String → Outcome RoleError DataspaceRole
parse_role s =
    if str_eq s "Consumer"
    then ok consumer
    else if str_eq s "Provider"
    then ok provider
    else err (not_a_valid_role s)

-- `String`, which panics on any other byte.
unfoldable pub role_string : DataspaceRole → Outcome RoleError String
role_string consumer = ok "Consumer"
role_string provider = ok "Provider"
role_string (undefined _) = panicked

abbrev pub is_consumer : DataspaceRole → Bool
is_consumer consumer = true
is_consumer _ = false

abbrev pub is_provider : DataspaceRole → Bool
is_provider provider = true
is_provider _ = false

of_role_string : {s t : String} → ◌≡◌ {A = Outcome RoleError String} (ok s) (ok t) → s ≡ t
of_role_string h = cc

-- A role that prints parses back to itself.
pub parse_role-role_string :
    (r : DataspaceRole) {s : String} → role_string r ≡ ok s → parse_role s ≡ ok r
unfolding parse_role role_string
parse_role-role_string consumer h = rw (← of_role_string h)
parse_role-role_string provider h = rw (← of_role_string h)
parse_role-role_string (undefined n) h = cc
