-- ===== src/StateMachine/Exchange.antt =====
-- dsp/statemachine: both ends of one message. What `Send` of one party leaves at its reconciler is
-- accepted by `Recv` of the other, and takes it to the state that the reconciler sets on our side.
use native.Mathlib.Omega.{arith}
use run_dsp.Prelude.{
  String, ◌⊎◌, ◌≡◌, ◌≢◌, refl, sym, true, false, Option, some, ◌∙◌, List, [], ◌∷◌, Bool-cases, inl,
  inr,
}
use run_dsp.Exec.{ok}
use run_dsp.Extern.{Extern, IsLawful}
use run_dsp.Odrl.{Agreement}
use run_dsp.Shared.Messages.{ContractMessage}
use run_dsp.StateMachine.Peers.{
  IsPeer, Reaches, agreement-Reaches, event-Reaches, verification-Reaches, offer-Reaches,
  request-Reaches,
}
use run_dsp.Contract.State.{State, of_string, parse_state, state_string, parse_state-state_string}
use run_dsp.Contract.Negotiation.{Negotiation, unset_initial, set_agreement}
use run_dsp.StateMachine.Env.{Env, add_entry, ReconciliationEntry}
use run_dsp.StateMachine.ContractRecv.{recv, recv_in}
use run_dsp.StateMachine.ContractSend.{
  send, send_in, new_agreement, send_message, make_entry, request_message, offer_message,
  agreement_message, event_message, verification_message, send_contract_agreement,
}

-- Whoever reads a body that was marshalled gets the message back.
abbrev pub Decodes : (x : Extern) → Env x → (String → Option (ContractMessage x)) → Type 0
Decodes x env decode =
    (m : ContractMessage x) (body : String) → env.marshal m ≡ some body → decode body ≡ some m

module _ (x : Extern) (law : IsLawful x) (ours theirs : Env x)
    (decode : String → Option (ContractMessage x)) (decodes : Decodes x ours decode)
    (a b : Negotiation x) (entry : ReconciliationEntry x) (m : ContractMessage x)
    (received : decode entry.body ≡ some m) (peer : IsPeer x a b) where
  abbrev Target : State → Type 0
  Target s = Reaches x (parse_state (of_string entry.target_state)) (recv_in x theirs s m b)

  abbrev with_agreement : Agreement x → Negotiation x → Negotiation x
  with_agreement g cn = record cn { agreement = some g; new_agreement = true; modified = true }

  sent_message :
      (msg : ContractMessage x) (path : List String) (t : State) (a₁ a₂ : Negotiation x)
      → send_message x ours msg path t a₁ ≡ (ok (add_entry entry), a₂)
      → (ours.marshal msg ≡ some entry.body) × (entry.target_state ≡ state_string t)
  unfolding send_message make_entry
  sent_message msg path t a₁ a₂ h = ground arith

  same_message : (msg : ContractMessage x) → ours.marshal msg ≡ some entry.body → msg ≡ m
  same_message msg e = cc (decodes msg entry.body e)

  delivered :
      (s : State) (msg : ContractMessage x) (path : List String) (t : State) (a₁ a₂ : Negotiation x)
      → send_message x ours msg path t a₁ ≡ (ok (add_entry entry), a₂)
      → Reaches x t (recv_in x theirs s msg b)
      → Target s
  delivered s msg path t a₁ a₂ h r =
      let (e, target) = sent_message msg path t a₁ a₂ h in
      rw (target, parse_state-state_string, ← same_message msg e) r

  sends_agreement :
      a.ro ≡ false
      → let g = new_agreement x ours.new_uuid ours.now a in
        send_contract_agreement x ours a
        ≡ send_message x ours
            (ContractMessage.agreement (agreement_message x g (with_agreement g a)))
            ("negotiations" ∷ x.uuid_string a.consumer_pid ∷ "agreement" ∷ [])
            State.agreed
            (with_agreement g a)
  unfolding send_contract_agreement set_agreement
  sends_agreement w = ground arith

  -- The PIDs and the state are all that a peer needs.
  unset-IsPeer : IsPeer x (unset_initial x a) b
  unset-IsPeer = ground (arith, peer)

  agreed-IsPeer : (g : Agreement x) → IsPeer x (with_agreement g a) b
  agreed-IsPeer g = ground (arith, peer)

  exchange_agreement :
      (s : State) (a₂ : Negotiation x)
      → a.ro ≡ false
      → a.state ≡ s
      → (s ≡ State.requested) ⊎ (s ≡ State.accepted)
      → send_contract_agreement x ours a ≡ (ok (add_entry entry), a₂)
      → Target s
  exchange_agreement s a₂ w e c h =
      let g = new_agreement x ours.new_uuid ours.now a in
      delivered s (ContractMessage.agreement (agreement_message x g (with_agreement g a))) _
        State.agreed (with_agreement g a) a₂ (sym (sends_agreement w) ∙ h)
        (agreement-Reaches x law theirs g s (with_agreement g a) b (agreed-IsPeer g) e c)

  exchange_requested :
      (a₂ : Negotiation x) {o : String}
      → a.state ≡ State.requested
      → a.ro ≡ false
      → theirs.marshal_offer b.offer ≡ some o
      → send_in x ours State.requested a ≡ (ok (add_entry entry), a₂)
      → Target State.requested
  unfolding send_in set_agreement
  exchange_requested a₂ s w o h = elim (Bool-cases a.initial) [
    | inl i ↦
        delivered State.requested (ContractMessage.offer (offer_message x (unset_initial x a))) _
          State.offered (unset_initial x a) a₂ (simp i at h)
          (offer-Reaches x law theirs (unset_initial x a) b unset-IsPeer s o)
    | inr i ↦ exchange_agreement State.requested a₂ w s (inl refl) (simp i at h)
  ]

  exchange_offered :
      (a₂ : Negotiation x) {o : String}
      → a.state ≡ State.offered
      → theirs.marshal_offer b.offer ≡ some o
      → send_in x ours State.offered a ≡ (ok (add_entry entry), a₂)
      → Target State.offered
  unfolding send_in
  exchange_offered a₂ s o h = elim (Bool-cases a.initial) [
    | inl i ↦
        delivered State.offered (ContractMessage.request (request_message x (unset_initial x a))) _
          State.requested (unset_initial x a) a₂ (simp i at h)
          (request-Reaches x law theirs (unset_initial x a) b unset-IsPeer s o)
    | inr i ↦
        delivered State.offered (ContractMessage.event (event_message x State.accepted a)) _
          State.accepted a a₂ (simp i at h)
          (event-Reaches x law theirs State.offered State.accepted a b peer s (inl (refl, refl)))
  ]

  exchange_in :
      (s : State) (a₂ : Negotiation x) {o : String}
      → a.state ≡ s
      → s ≢ State.initial
      → a.ro ≡ false
      → theirs.marshal_offer b.offer ≡ some o
      → send_in x ours s a ≡ (ok (add_entry entry), a₂)
      → Target s
  unfolding send_in
  exchange_in State.initial a₂ e n w o h = absurd (n refl)
  exchange_in State.requested a₂ e n w o h = exchange_requested a₂ e w o h
  exchange_in State.offered a₂ e n w o h = exchange_offered a₂ e o h
  exchange_in State.accepted a₂ e n w o h = exchange_agreement State.accepted a₂ w e (inr refl) h
  exchange_in State.agreed a₂ e n w o h =
      delivered State.agreed (ContractMessage.verification (verification_message x a)) _
        State.verified a a₂ h (verification-Reaches x law theirs a b peer e)
  exchange_in State.verified a₂ e n w o h =
      delivered State.verified (ContractMessage.event (event_message x State.finalized a)) _
        State.finalized a a₂ h
        (event-Reaches x law theirs State.verified State.finalized a b peer e (inr (refl, refl)))
  exchange_in State.finalized a₂ e n w o h = cc
  exchange_in State.terminated a₂ e n w o h = cc

  -- If `Send` of a writable negotiation past INITIAL leaves an entry for the reconciler, then the other
  -- party, in the same state and with the same two PIDs, accepts the message of that entry, and comes
  -- to the state that our reconciler reads from the entry. The body is taken to decode to the message
  -- that was marshalled, and the other party to be able to marshal its offer.
  pub recv-send :
      (a₂ : Negotiation x) {o : String}
      → a.state ≢ State.initial
      → a.ro ≡ false
      → theirs.marshal_offer b.offer ≡ some o
      → send x ours a ≡ (ok (add_entry entry), a₂)
      → Reaches x (parse_state (of_string entry.target_state)) (recv x theirs m b)
  unfolding send recv
  recv-send a₂ n w o h = simp peer.state (exchange_in a.state a₂ refl n w o h)
