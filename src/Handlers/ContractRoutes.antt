-- ===== src/Handlers/ContractRoutes.antt =====
-- dsp/contract_handlers.go: the handlers that only choose a role, from a decoded message on, the one that
-- reads a negotiation, and the PIDs of an error. `raw` is the PID in the path.
use run_dsp.Prelude.{ℕ, String, ◌≡◌, refl, false, Option, none, some}
use run_dsp.Exec.{Outcome, ok, err}
use run_dsp.Extern.{Extern}
use run_dsp.Role.{DataspaceRole, consumer, provider}
use run_dsp.Shared.Messages.{
  ContractMessage, ContractRequestMessage, ContractOfferMessage, ContractAgreementMessage,
  ContractAgreementVerificationMessage, ContractNegotiationEventMessage, ContractNegotiation,
}
use run_dsp.Contract.Negotiation.{Negotiation, get_contract_negotiation}
use run_dsp.Handlers.Contracts.{Log, Service, ContractError, Handler, progress_contract_state}
use run_dsp.Handlers.ContractLocks.{Releases, is_held, contract_error-log, process_message-is_held}

module _ (x : Extern) where
  -- `ProviderPID` and `ConsumerPID` of an error.
  unfoldable pub pid_text : (Negotiation x → x.Uuid) → Option (Negotiation x) → String
  pid_text pid none = ""
  pid_text pid (some cn) = x.urn (pid cn)

  unfoldable pub error_provider_pid : ContractError x → String
  unfolding pid_text
  error_provider_pid ce = pid_text (λ cn. cn.provider_pid) ce.contract

  unfoldable pub error_consumer_pid : ContractError x → String
  unfolding pid_text
  error_consumer_pid ce = pid_text (λ cn. cn.consumer_pid) ce.contract

  -- `providerContractStateHandler`, where `find` reads a negotiation without locking it. The error is
  -- the HTTP status.
  unfoldable pub state_found : Option (Negotiation x) → Outcome ℕ ContractNegotiation
  state_found none = err 404
  state_found (some cn) = ok (get_contract_negotiation x cn)

  unfoldable pub state_of :
      (x.Uuid → Option (Negotiation x)) → Option x.Uuid → Outcome ℕ ContractNegotiation
  unfolding state_found
  state_of find none = err 400
  state_of find (some pid) = state_found (find pid)

  unfoldable pub provider_contract_state :
      (find : DataspaceRole → x.Uuid → Option (Negotiation x))
      → (raw : String) → Outcome ℕ ContractNegotiation
  unfolding state_of
  provider_contract_state find raw = state_of (find provider) (x.parse_uuid raw)

module _ (x : Extern) (v : Service x) where
  unfoldable pub provider_contract_specific_request :
      (raw : String) → ContractRequestMessage x → Handler x v ContractNegotiation
  provider_contract_specific_request raw m =
      progress_contract_state x v provider raw (ContractMessage.request m)

  unfoldable pub provider_contract_event :
      (raw : String) → ContractNegotiationEventMessage → Handler x v ContractNegotiation
  provider_contract_event raw m = progress_contract_state x v provider raw (ContractMessage.event m)

  unfoldable pub provider_contract_verification :
      (raw : String) → ContractAgreementVerificationMessage → Handler x v ContractNegotiation
  provider_contract_verification raw m =
      progress_contract_state x v provider raw (ContractMessage.verification m)

  unfoldable pub consumer_contract_specific_offer :
      (raw : String) → ContractOfferMessage x → Handler x v ContractNegotiation
  consumer_contract_specific_offer raw m =
      progress_contract_state x v consumer raw (ContractMessage.offer m)

  unfoldable pub consumer_contract_agreement :
      (raw : String) → ContractAgreementMessage x → Handler x v ContractNegotiation
  consumer_contract_agreement raw m =
      progress_contract_state x v consumer raw (ContractMessage.agreement m)

  unfoldable pub consumer_contract_event :
      (raw : String) → ContractNegotiationEventMessage → Handler x v ContractNegotiation
  consumer_contract_event raw m = progress_contract_state x v consumer raw (ContractMessage.event m)

module _ (x : Extern) (v : Service x) (releases : Releases x v) where
  progress_parsed-is_held :
      (role : DataspaceRole) (raw : String) (o : Option x.Uuid) (m : ContractMessage x) (l : Log x)
      → x.parse_uuid raw ≡ o
      → is_held l ≡ false
      → is_held (progress_contract_state x v role raw m l).1 ≡ false
  unfolding progress_contract_state
  progress_parsed-is_held role raw none m l e h =
      rw
        (progress_contract_state, e, contract_error-log x v releases ContractNegotiation 400 none l)
        h
  progress_parsed-is_held role raw (some pid) m l e h =
      rw (progress_contract_state, e) (process_message-is_held x v releases role pid m l h)

  -- However a handler of the routes ends, the negotiation is not locked afterwards, if it was not
  -- locked before and every release succeeds.
  pub progress_contract_state-is_held :
      (role : DataspaceRole) (raw : String) (m : ContractMessage x) (l : Log x)
      → is_held l ≡ false
      → is_held (progress_contract_state x v role raw m l).1 ≡ false
  progress_contract_state-is_held role raw m l h =
      progress_parsed-is_held role raw (x.parse_uuid raw) m l refl h
