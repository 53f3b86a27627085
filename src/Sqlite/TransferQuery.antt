-- ===== src/Sqlite/TransferQuery.antt =====
-- The parameters of a query for transfers: `transferParamBuilder` of
-- dsp/persistence/backends/sqlite/transfer_saver.go, and dsp/persistence/options/transfer/options.go.
use run_dsp.Prelude.{String, Bool, true, false, Option, none, some, List, [], ◌∷◌, ◌++◌}
use run_dsp.Exec.{Outcome, ok}
use run_dsp.Extern.{Extern}
use run_dsp.Role.{DataspaceRole, RoleError, consumer, provider, undefined, role_string}
use run_dsp.Transfer.State.{State, state_string, Direction, direction_string}

-- The test of one column with `=`.
pub data Condition : Type 0 where
  is_locked : Bool → Condition
  has_consumer_pid has_provider_pid has_agreement_id has_callback has_role has_state has_direction :
      String → Condition

-- `transferParamBuilder`
pub record Params (x : Extern) : Type 0 where
  pub consumer_pid : Option x.Uuid
  pub provider_pid : Option x.Uuid
  pub agreement_id : Option x.Uuid
  pub callback : Option x.Url
  pub role : Option DataspaceRole
  pub state : Option State
  pub direction : Option Direction
  pub rw : Bool

abbrev tested {ℓ} : {A : Type ℓ} → (A → Condition) → Option A → List Condition
tested f none = []
tested f (some a) = f a ∷ []

-- The names of a role and of a direction panic outside their ranges.
unfoldable pub named_role : Outcome RoleError String → Option (List Condition)
named_role (ok s) = some (has_role s ∷ [])
named_role _ = none

unfoldable pub role_tested : Option DataspaceRole → Option (List Condition)
unfolding named_role
role_tested none = some []
role_tested (some r) = named_role (role_string r)

unfoldable pub named_direction : Option String → Option (List Condition)
named_direction none = none
named_direction (some s) = some (has_direction s ∷ [])

unfoldable pub direction_tested : Option Direction → Option (List Condition)
unfolding named_direction
direction_tested none = some []
direction_tested (some d) = named_direction (direction_string d)

module _ (x : Extern) where
  -- `newTransferParamBuilder` without options, and the options.
  abbrev pub no_params : Params x
  no_params = record {
    consumer_pid = none;
    provider_pid = none;
    agreement_id = none;
    callback = none;
    role = none;
    state = none;
    direction = none;
    rw = false;
  }

  abbrev pub with_consumer_pid : x.Uuid → Params x → Params x
  with_consumer_pid pid p = record p { consumer_pid = some pid }

  abbrev pub with_provider_pid : x.Uuid → Params x → Params x
  with_provider_pid pid p = record p { provider_pid = some pid }

  -- `WithRolePID` panics, here `none`, on an undefined role.
  abbrev pub with_role_pid : x.Uuid → DataspaceRole → Option (Params x → Params x)
  with_role_pid pid consumer = some (with_consumer_pid pid)
  with_role_pid pid provider = some (with_provider_pid pid)
  with_role_pid pid (undefined _) = none

  abbrev pub with_agreement_id : x.Uuid → Params x → Params x
  with_agreement_id id p = record p { agreement_id = some id }

  abbrev pub with_callback : x.Url → Params x → Params x
  with_callback u p = record p { callback = some u }

  abbrev pub with_role : DataspaceRole → Params x → Params x
  with_role role p = record p { role = some role }

  abbrev pub with_state : State → Params x → Params x
  with_state state p = record p { state = some state }

  abbrev pub with_rw : Params x → Params x
  with_rw p = record p { rw = true }

  -- The tests that cannot panic, before and after those of the role and the direction.
  unfoldable pub conjunction :
      Params x
      → (locked : Option Bool) → (role direction : Option (List Condition))
      → Option (List Condition)
  conjunction p locked none direction = none
  conjunction p locked (some role) none = none
  conjunction p locked (some role) (some direction) = some (
      tested is_locked locked
      ++ tested (λ u. has_consumer_pid (x.urn u)) p.consumer_pid
      ++ tested (λ u. has_provider_pid (x.urn u)) p.provider_pid
      ++ tested (λ u. has_agreement_id (x.urn u)) p.agreement_id
      ++ tested (λ u. has_callback (x.url_string u)) p.callback
      ++ role
      ++ tested (λ s. has_state (state_string s)) p.state
      ++ direction)

  -- `GetWhereGroup`, a conjunction; a panic is `none`.
  unfoldable pub where_group : Params x → (locked : Option Bool) → Option (List Condition)
  unfolding role_tested direction_tested conjunction
  where_group p locked = conjunction p locked (role_tested p.role) (direction_tested p.direction)
