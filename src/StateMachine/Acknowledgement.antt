-- ===== src/StateMachine/Acknowledgement.antt =====
-- dsp/statemachine/reconciler.go: what an answer of the other party, which is not trusted, can change.
use native.Mathlib.Omega.{arith}
use run_dsp.Prelude.{String, ◌≡◌, ◌⊎◌, true, false, Option, none, some, refl}
use run_dsp.Exec.{Outcome, ok}
use run_dsp.Extern.{Extern}
use run_dsp.Contract.Negotiation.{Negotiation, set_provider_pid, set_consumer_pid}
use run_dsp.StateMachine.Updater.{
  World, Record, of_negotiation, of_request, apply_response, learn, learn_from,
  parse_negotiation_ack,
}

-- The one field that differs is a PID that was unknown, and the other PID is that of the answer.
pub record LearnsProvider (x : Extern) (ppid cpid : x.Uuid) (a b : Negotiation x) : Type 0 where
  pub was_unknown : x.eq_uuid a.provider_pid x.nil_uuid ≡ true
  pub is_known : x.eq_uuid b.provider_pid x.nil_uuid ≡ false
  pub other_matches : x.eq_uuid cpid a.consumer_pid ≡ true
  pub change : b ≡ record a { provider_pid = ppid; modified = true }

pub record LearnsConsumer (x : Extern) (ppid cpid : x.Uuid) (a b : Negotiation x) : Type 0 where
  pub was_unknown : x.eq_uuid a.consumer_pid x.nil_uuid ≡ true
  pub is_known : x.eq_uuid b.consumer_pid x.nil_uuid ≡ false
  pub other_matches : x.eq_uuid ppid a.provider_pid ≡ true
  pub change : b ≡ record a { consumer_pid = cpid; modified = true }

-- What an acknowledgement with these PIDs makes of a negotiation.
abbrev pub Learns : (x : Extern) → Option (x.Uuid × x.Uuid) → Negotiation x → Negotiation x → Type 0
Learns x none a b = b ≡ a
Learns x (some (ppid, cpid)) a b =
    (b ≡ a) ⊎ (LearnsProvider x ppid cpid a b ⊎ LearnsConsumer x ppid cpid a b)

-- The call has returned.
abbrev pub Learned :
    (x : Extern)
    → Option (x.Uuid × x.Uuid)
    → Record x
    → {E : Type 0} → Outcome E (Unit {0}) × Record x
    → Type 0
Learned x ack (of_negotiation a) (ok _, of_negotiation b) = Learns x ack a b
Learned x ack (of_request a) (ok _, of_request b) = b ≡ a
Learned x ack _ _ = ⊥

abbrev pub IsWritable : {x : Extern} → Record x → Type 0
IsWritable (of_negotiation a) = a.ro ≡ false
IsWritable (of_request a) = Unit

module _ (x : Extern) (w : World x) where
  learn-Learned :
      (ppid cpid : x.Uuid) (a : Negotiation x)
      → a.ro ≡ false
      → Learned x
          (some (ppid, cpid))
          (of_negotiation a)
          (let (o, b) = learn x w ppid cpid a in (o, of_negotiation b))
  unfolding learn set_provider_pid set_consumer_pid
  learn-Learned ppid cpid a h = ground arith

  learn_from-Learned :
      (ack : Option (x.Uuid × x.Uuid)) (a : Negotiation x)
      → a.ro ≡ false
      → Learned x ack
          (of_negotiation a)
          (let (o, b) = learn_from x w ack a in (o, of_negotiation b))
  unfolding learn_from
  learn_from-Learned none a h = refl
  learn_from-Learned (some (ppid, cpid)) a h = learn-Learned ppid cpid a h

  -- Whatever the other party answers, `ApplyResponse` returns, and changes a writable negotiation by at
  -- most one PID: one that was unknown becomes the PID of the acknowledgement, if that is not the nil
  -- UUID and the acknowledgement's other PID is the one that we have. Nothing else changes but the flag
  -- `modified`, and nothing at all in a transfer or for a body that is no acknowledgement.
  pub apply_response-Learned :
      (body : String) (r : Record x)
      → IsWritable r
      → Learned x (parse_negotiation_ack x w body) r (apply_response x w body r)
  unfolding apply_response
  apply_response-Learned body (of_negotiation a) h =
      learn_from-Learned (parse_negotiation_ack x w body) a h
  apply_response-Learned body (of_request a) h = refl
