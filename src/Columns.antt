-- ===== src/Columns.antt =====
-- The columns that dsp/contract/negotiation.go and dsp/transfer/request.go fill alike: the PIDs, the role
-- and the requester.
use run_dsp.Prelude.{
  String, ◌≡◌, refl, sym, ap, Bool-cases, Option, none, some, str_eq, eq_iff, inl, inr,
  if◌then◌else◌, arith,
}
use run_dsp.Optional.{◌>>=◌}
use run_dsp.Exec.{Outcome, ok}
use run_dsp.Extern.{Extern, IsLawful}
use run_dsp.Json.{Json, IsJson}
use run_dsp.Role.{DataspaceRole, RoleError}

abbrev pub role_of : Outcome RoleError DataspaceRole → Option DataspaceRole
role_of (ok r) = some r
role_of _ = none

module _ (x : Extern) where
  -- A nullable column of a PID.
  abbrev pub pid_of : Option String → Option x.Uuid
  pid_of none = some x.nil_uuid
  pid_of (some s) = x.parse_uuid s

  abbrev pub column_of_pid : x.Uuid → Option String
  column_of_pid u = if str_eq (x.urn u) (x.urn x.nil_uuid) then none else some (x.urn u)

module _ (x : Extern) (j : Json x) where
  abbrev pub requester_of : Option String → Option (Option x.RequesterInfo)
  requester_of none = some none
  requester_of (some s) = do r ← j.requester_info.unmarshal s; some (some r)

  abbrev pub column_of_requester : Option x.RequesterInfo → Option (Option String)
  column_of_requester none = some none
  column_of_requester (some r) = do s ← j.requester_info.marshal r; some (some s)

module _ (x : Extern) (law : IsLawful x) where
  urn_injective : (u v : x.Uuid) → x.urn u ≡ x.urn v → u ≡ v
  urn_injective u v e = cc (law.parse-urn u, law.parse-urn v)

  pub pid_of-column_of_pid : (u : x.Uuid) → pid_of x (column_of_pid x u) ≡ some u
  pid_of-column_of_pid u = elim (Bool-cases (str_eq (x.urn u) (x.urn x.nil_uuid))) [
    | inl e ↦
        rw e
          (ap some (sym (urn_injective u x.nil_uuid ((eq_iff (x.urn u) (x.urn x.nil_uuid)).0 e))))
    | inr e ↦ rw e (law.parse-urn u)
  ]

module _ (x : Extern) (j : Json x) (codec : IsJson x j) where
  pub requester_of-column :
      (o : Option x.RequesterInfo) (c : Option String)
      → column_of_requester x j o ≡ some c
      → requester_of x j c ≡ some o
  requester_of-column none none h = refl
  requester_of-column none (some c) h = cc
  requester_of-column (some r) none h = ground arith
  requester_of-column (some r) (some c) h =
      ground (arith, codec.requester_info.unmarshal-marshal r c)
