-- ===== src/Handlers/FirstMessages.antt =====
-- dsp/contract_handlers.go: the two handlers that start a negotiation, from a decoded message on.
use native.Mathlib.Omega.{arith}
use run_dsp.Prelude.{◌≡◌, refl, true, false, not, Option, none, some, ◌∷◌}
use run_dsp.Exec.{Outcome, ok, err, panicked}
use run_dsp.Extern.{Extern}
use run_dsp.Role.{DataspaceRole, consumer, provider}
use run_dsp.Odrl.{Agreement}
use run_dsp.Shared.Messages.{
  ContractMessage, ContractNegotiation, ContractRequestMessage, ContractOfferMessage, TraceInfo,
}
use run_dsp.Contract.State.{State}
use run_dsp.Contract.Negotiation.{Negotiation, new}
use run_dsp.Handlers.Contracts.{
  Log, saved, agreement_saved, Service, ContractError, Handler, contract_error, store_agreement,
  store_negotiation, process_message,
}
use run_dsp.Handlers.ContractLocks.{is_held, Releases, contract_error-log, process_message-is_held}

-- What the two handlers take from the request and from their own set-up: `uuid.New`, `dh.selfURL`, the
-- path `callback` joined to a URL, the trace, and the requester.
pub record Setup (x : Extern) : Type 0 where
  pub new_pid : x.Uuid
  pub self : x.Url
  pub join_callback : x.Url → x.Url
  pub trace : TraceInfo
  pub requester : Option x.RequesterInfo

module _ (x : Extern) (v : Service x) (s : Setup x) where
  -- Once the new negotiation is stored, the message is processed.
  process_stored :
      DataspaceRole
      → x.Uuid
      → ContractMessage x
      → Outcome (ContractError x) (Unit {0}) × Log x
      → Outcome (ContractError x) ContractNegotiation × Log x
  process_stored role pid m (ok _, l) = process_message x v role pid m l
  process_stored role pid m (err e, l) = (err e, l)
  process_stored role pid m (panicked, l) = (panicked, l)

  requested : ContractRequestMessage x → x.Uuid → x.Url → Negotiation x
  unfolding new
  requested t c cb =
      new x s.trace s.new_pid c State.initial (record { message_offer = t.offer }) cb s.self
        provider (not v.env.contract_service) s.requester

  offered : ContractOfferMessage x → x.Uuid → (callback own : x.Url) → Negotiation x
  unfolding new
  offered t p cb own =
      new x s.trace p s.new_pid State.initial (record { message_offer = t.offer }) cb
        (s.join_callback own) consumer (not v.env.contract_service) s.requester

  start_as_provider :
      ContractRequestMessage x → Option x.Uuid → Option x.Url → Handler x v ContractNegotiation
  unfolding contract_error process_stored store_negotiation requested offered
  start_as_provider t none cb = contract_error x v 400 none
  start_as_provider t (some c) none = contract_error x v 400 none
  start_as_provider t (some c) (some cb) = λ l.
      process_stored provider s.new_pid (ContractMessage.request t)
        (store_negotiation x v (requested t c cb) l)

  -- `providerContractRequestHandler`
  unfoldable pub provider_contract_request :
      ContractRequestMessage x → Handler x v ContractNegotiation
  unfolding start_as_provider
  provider_contract_request t =
      start_as_provider t (x.parse_uuid t.consumer_pid) (x.parse_url t.callback_address)

  -- Our own URL is printed and parsed again, which panics where it does not parse.
  start_as_consumer :
      ContractOfferMessage x
      → Option x.Uuid
      → Option x.Url
      → Option x.Url
      → Handler x v ContractNegotiation
  unfolding contract_error process_stored store_negotiation requested offered
  start_as_consumer t none cb own = contract_error x v 400 none
  start_as_consumer t (some p) none own = contract_error x v 400 none
  start_as_consumer t (some p) (some cb) none = λ l. (panicked, l)
  start_as_consumer t (some p) (some cb) (some own) = λ l.
      process_stored consumer s.new_pid (ContractMessage.offer t)
        (store_negotiation x v (offered t p cb own) l)

  -- `consumerContractOfferHandler`
  unfoldable pub consumer_contract_offer : ContractOfferMessage x → Handler x v ContractNegotiation
  unfolding start_as_consumer
  consumer_contract_offer t =
      start_as_consumer t (x.parse_uuid t.provider_pid) (x.parse_url t.callback_address)
        (x.parse_url (x.url_string s.self))

abbrev IsFree : {x : Extern} {A : Type 0} → Outcome (ContractError x) A × Log x → Type 0
IsFree r = is_held r.1 ≡ false

module _ (x : Extern) (v : Service x) (releases : Releases x v) (s : Setup x) where
  store_agreement-IsFree :
      (cn : Negotiation x) (a : Option (Agreement x)) (l : Log x)
      → is_held l ≡ false
      → IsFree (store_agreement x v cn a l)
  unfolding store_agreement
  store_agreement-IsFree cn none l h = h
  store_agreement-IsFree cn (some a) l h = ground (
    arith,
    contract_error-log x v releases (Unit {0}) 500 (some cn) (agreement_saved a false ∷ l),
  )

  store_negotiation-IsFree :
      (cn : Negotiation x) (l : Log x) → is_held l ≡ false → IsFree (store_negotiation x v cn l)
  unfolding store_negotiation
  store_negotiation-IsFree cn l h = ground (
    arith,
    store_agreement-IsFree cn cn.agreement (saved cn true ∷ l) refl,
    contract_error-log x v releases (Unit {0}) 500 (some cn) (saved cn false ∷ l),
  )

  process_stored-IsFree :
      (role : DataspaceRole) (pid : x.Uuid) (m : ContractMessage x)
      (r : Outcome (ContractError x) (Unit {0}) × Log x)
      → IsFree r
      → IsFree (process_stored x v s role pid m r)
  unfolding process_stored
  process_stored-IsFree role pid m (ok _, l) h = process_message-is_held x v releases role pid m l h
  process_stored-IsFree role pid m (err e, l) h = h
  process_stored-IsFree role pid m (panicked, l) h = h

  start_as_provider-IsFree :
      (t : ContractRequestMessage x) (c : Option x.Uuid) (cb : Option x.Url) (l : Log x)
      → is_held l ≡ false
      → IsFree (start_as_provider x v s t c cb l)
  unfolding start_as_provider
  start_as_provider-IsFree t none cb l h =
      rw (contract_error-log x v releases ContractNegotiation 400 none l) h
  start_as_provider-IsFree t (some c) none l h =
      rw (contract_error-log x v releases ContractNegotiation 400 none l) h
  start_as_provider-IsFree t (some c) (some cb) l h =
      process_stored-IsFree provider s.new_pid (ContractMessage.request t)
        (store_negotiation x v (requested x v s t c cb) l)
        (store_negotiation-IsFree (requested x v s t c cb) l h)

  start_as_consumer-IsFree :
      (t : ContractOfferMessage x) (p : Option x.Uuid) (cb own : Option x.Url) (l : Log x)
      → is_held l ≡ false
      → IsFree (start_as_consumer x v s t p cb own l)
  unfolding start_as_consumer
  start_as_consumer-IsFree t none cb own l h =
      rw (contract_error-log x v releases ContractNegotiation 400 none l) h
  start_as_consumer-IsFree t (some p) none own l h =
      rw (contract_error-log x v releases ContractNegotiation 400 none l) h
  start_as_consumer-IsFree t (some p) (some cb) none l h = h
  start_as_consumer-IsFree t (some p) (some cb) (some own) l h =
      process_stored-IsFree consumer s.new_pid (ContractMessage.offer t)
        (store_negotiation x v (offered x v s t p cb own) l)
        (store_negotiation-IsFree (offered x v s t p cb own) l h)

  -- Neither handler that starts a negotiation leaves it locked, however it ends, if it was not locked
  -- before and every release succeeds.
  pub first_message-is_held :
      (t : ContractRequestMessage x) (u : ContractOfferMessage x) (l : Log x)
      → is_held l ≡ false
      → (is_held (provider_contract_request x v s t l).1 ≡ false)
        × (is_held (consumer_contract_offer x v s u l).1 ≡ false)
  unfolding provider_contract_request consumer_contract_offer
  first_message-is_held t u l h =
      (start_as_provider-IsFree t _ _ l h, start_as_consumer-IsFree u _ _ _ l h)
