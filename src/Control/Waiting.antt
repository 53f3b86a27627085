-- ===== src/Control/Waiting.antt =====
-- dsp/control/control.go: the loops by which the download and upload calls wait for a negotiation and
-- for a transfer. Each turn reads the store again a second later; the loops have no bound of their own,
-- so a number of turns is given, after which the call is still waiting.
use run_dsp.Prelude.{
  ℕ, zero, suc, String, Bool, true, false, ◌&&◌, Option, none, some, List, [], ◌∷◌, str_eq,
  if◌then◌else◌,
}
use run_dsp.Exec.{Outcome, ok, err, panicked}
use run_dsp.Extern.{Extern}
use run_dsp.Auth.{check_requester_info}
use run_dsp.Role.{DataspaceRole, consumer, provider}
use run_dsp.Contract.State
use run_dsp.Contract.Negotiation.{Negotiation, local_pid}
use run_dsp.Transfer.State as Transfer
use run_dsp.Transfer.Request.{Request}
use run_dsp.Control.Code.{Code, internal, aborted, other}
use run_dsp.Control.Catalog.{trim_prefix}

-- The store as the loops see it, read-only, and what others do to it in a second. `none` is an error.
pub record Watch (x : Extern) : Type 1 where
  pub Store : Type 0
  pub get_contract : DataspaceRole → x.Uuid → Store → Option (Negotiation x)
  pub get_transfer : DataspaceRole → x.Uuid → Store → Option (Request x)
  pub get_transfers : Store → Option (List (Request x))
  pub sleep : Store → Store

-- What a loop has come to after a number of turns.
pub data Waited (A : Type 0) : Type 0 where
  returned : Outcome Code A → Waited A
  waiting : Waited A

module _ (x : Extern) (s : Watch x) where
  -- What a turn makes of the negotiation that it reads: the download call gives up on TERMINATED.
  unfoldable pub read_contract :
      (aborts : Bool)
      → (again : Negotiation x → s.Store → Waited (Negotiation x)) → Option (Negotiation x)
      → s.Store
      → Waited (Negotiation x)
  read_contract aborts again none w = returned (err internal)
  read_contract aborts again (some cn) w =
      if aborts && State.eq_state cn.state State.terminated
      then returned (err aborted)
      else again cn w

  -- From the local PID on, `none` for an undefined role.
  unfoldable pub next_contract :
      (aborts : Bool)
      → DataspaceRole
      → (again : Negotiation x → s.Store → Waited (Negotiation x)) → Option x.Uuid
      → s.Store
      → Waited (Negotiation x)
  unfolding read_contract
  next_contract aborts role again none w = returned (err internal)
  next_contract aborts role again (some pid) w =
      read_contract aborts again (s.get_contract role pid w) w

  unfoldable pub watch_contract :
      (aborts : Bool)
      → DataspaceRole
      → (turns : ℕ) → Negotiation x
      → s.Store
      → Waited (Negotiation x)
  unfolding next_contract
  watch_contract aborts role zero cn w = waiting
  watch_contract aborts role (suc n) cn w =
      if State.eq_state cn.state State.finalized
      then returned (ok cn)
      else next_contract aborts role (watch_contract aborts role n) (local_pid x cn) (s.sleep w)

  -- The loop of `GetProviderDatasetDownloadInformation`, and that of `GetProviderDatasetUploadInformation`.
  unfoldable pub watch_download : (turns : ℕ) → Negotiation x → s.Store → Waited (Negotiation x)
  unfolding watch_contract
  watch_download = watch_contract true consumer

  unfoldable pub watch_upload : (turns : ℕ) → Negotiation x → s.Store → Waited (Negotiation x)
  unfolding watch_contract
  watch_upload = watch_contract false provider

  -- The transfer of a download, until it is STARTED.
  unfoldable pub checked_transfer :
      (again : Request x → s.Store → Waited (Request x))
      → Request x
      → Outcome (Unit {0}) (Unit {0})
      → s.Store
      → Waited (Request x)
  checked_transfer again tr (ok _) w =
      if Transfer.eq_state tr.state Transfer.terminated then returned (err aborted) else again tr w
  checked_transfer again tr (err _) w = returned (err other)
  checked_transfer again tr panicked w = returned panicked

  unfoldable pub read_transfer :
      (requester : Option x.RequesterInfo)
      → (again : Request x → s.Store → Waited (Request x)) → Option (Request x)
      → s.Store
      → Waited (Request x)
  unfolding checked_transfer check_requester_info
  read_transfer requester again none w = returned (err internal)
  read_transfer requester again (some tr) w =
      checked_transfer again tr (check_requester_info x requester tr.requester_info) w

  unfoldable pub watch_transfer :
      (requester : Option x.RequesterInfo)
      → (pid : x.Uuid) → (turns : ℕ) → Request x
      → s.Store
      → Waited (Request x)
  unfolding read_transfer
  watch_transfer requester pid zero tr w = waiting
  watch_transfer requester pid (suc n) tr w =
      if Transfer.eq_state tr.state Transfer.started
      then returned (ok tr)
      else read_transfer requester (watch_transfer requester pid n)
          (s.get_transfer consumer pid (s.sleep w)) (s.sleep w)

  -- The transfer of an upload: the first STARTED one of the agreement.
  unfoldable pub is_wanted : (agreement_id : String) → Request x → Bool
  unfolding trim_prefix
  is_wanted id tr =
      Transfer.eq_state tr.state Transfer.started
      && str_eq (x.uuid_string tr.agreement_id) (trim_prefix id "urn:uuid:")

  unfoldable pub find_wanted : (agreement_id : String) → List (Request x) → Option (Request x)
  unfolding is_wanted
  find_wanted id [] = none
  find_wanted id (tr ∷ trs) = if is_wanted id tr then some tr else find_wanted id trs

  unfoldable pub found_wanted :
      (again : s.Store → Waited (Request x)) → Option (Request x) → s.Store → Waited (Request x)
  found_wanted again none w = again (s.sleep w)
  found_wanted again (some tr) w = returned (ok tr)

  unfoldable pub search_transfers :
      (agreement_id : String)
      → (again : s.Store → Waited (Request x)) → Option (List (Request x))
      → s.Store
      → Waited (Request x)
  unfolding find_wanted found_wanted
  search_transfers id again none w = returned (err other)
  search_transfers id again (some trs) w = found_wanted again (find_wanted id trs) w

  unfoldable pub watch_transfers :
      (agreement_id : String) → (turns : ℕ) → s.Store → Waited (Request x)
  unfolding search_transfers
  watch_transfers id zero w = waiting
  watch_transfers id (suc n) w = search_transfers id (watch_transfers id n) (s.get_transfers w) w
