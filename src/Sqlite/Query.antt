-- ===== src/Sqlite/Query.antt =====
-- The parameters of a query for negotiations: `negotiationParamBuilder` of
-- dsp/persistence/backends/sqlite/contract_saver.go, and dsp/persistence/options/contract/options.go.
use run_dsp.Prelude.{String, Bool, true, false, Option, none, some, List, [], ◌∷◌, ◌++◌}
use run_dsp.Exec.{Outcome, ok}
use run_dsp.Extern.{Extern}
use run_dsp.Role.{DataspaceRole, RoleError, consumer, provider, undefined, role_string}
use run_dsp.Contract.State.{State, state_string}

-- The test of one column with `=`.
pub data Condition : Type 0 where
  is_locked : Bool → Condition
  has_consumer_pid has_provider_pid has_agreement_id has_callback has_role has_state :
      String → Condition

-- `negotiationParamBuilder`
pub record Params (x : Extern) : Type 0 where
  pub consumer_pid : Option x.Uuid
  pub provider_pid : Option x.Uuid
  pub agreement_id : Option x.Uuid
  pub callback : Option x.Url
  pub role : Option DataspaceRole
  pub state : Option State
  pub rw : Bool

abbrev tested {ℓ} : {A : Type ℓ} → (A → Condition) → Option A → List Condition
tested f none = []
tested f (some a) = f a ∷ []

-- The role's name panics on an undefined role.
abbrev named_role : Outcome RoleError String → Option (List Condition)
named_role (ok s) = some (has_role s ∷ [])
named_role _ = none

abbrev role_tested : Option DataspaceRole → Option (List Condition)
role_tested none = some []
role_tested (some r) = named_role (role_string r)

module _ (x : Extern) where
  abbrev pub no_params : Params x
  no_params = record {
    consumer_pid = none;
    provider_pid = none;
    agreement_id = none;
    callback = none;
    role = none;
    state = none;
    rw = false;
  }

  -- The options: `WithRolePID` panics, here `none`, on an undefined role.
  abbrev pub with_consumer_pid : x.Uuid → Params x → Params x
  with_consumer_pid pid p = record p { consumer_pid = some pid }

  abbrev pub with_provider_pid : x.Uuid → Params x → Params x
  with_provider_pid pid p = record p { provider_pid = some pid }

  abbrev pub with_role_pid : x.Uuid → DataspaceRole → Option (Params x → Params x)
  with_role_pid pid consumer = some (with_consumer_pid pid)
  with_role_pid pid provider = some (with_provider_pid pid)
  with_role_pid pid (undefined _) = none

  abbrev pub with_agreement_id : x.Uuid → Params x → Params x
  with_agreement_id id p = record p { agreement_id = some id }

  abbrev pub with_callback : x.Url → Params x → Params x
  with_callback u p = record p { callback = some u }

  abbrev pub with_role : DataspaceRole → Params x → Params x
  with_role role p = record p { role = some role }

  abbrev pub with_state : State → Params x → Params x
  with_state state p = record p { state = some state }

  abbrev pub with_rw : Params x → Params x
  with_rw p = record p { rw = true }

  -- `GetWhereGroup`, a conjunction; a panic is `none`.
  unfoldable pub where_group : Params x → (locked : Option Bool) → Option (List Condition)
  where_group p locked = elim (role_tested p.role) [
    | none ↦ none
    | some role ↦ some (
        tested is_locked locked
        ++ tested (λ u. has_consumer_pid (x.urn u)) p.consumer_pid
        ++ tested (λ u. has_provider_pid (x.urn u)) p.provider_pid
        ++ tested (λ u. has_agreement_id (x.urn u)) p.agreement_id
        ++ tested (λ u. has_callback (x.url_string u)) p.callback
        ++ role
        ++ tested (λ s. has_state (state_string s)) p.state)
  ]
