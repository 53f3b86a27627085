-- ===== src/StateMachine/Shutdowns.antt =====
-- dsp/statemachine/transfer_request_transitions.go: which transitions shut a transfer down at the
-- provider, in `unpublishTransfer`.
use native.Mathlib.Omega.{arith}
use run_dsp.Prelude.{
  String, ◌≡◌, refl, ◌∙◌, Bool, List, [], ◌∷◌, if◌then◌else◌, Option, not, ◌||◌, str_eq, is_some,
}
use run_dsp.Exec.{Outcome, ok, err, panicked, get, raise, resume, panic, ◌>>=◌}
use run_dsp.Extern.{Extern}
use run_dsp.Role.{is_consumer, is_provider}
use run_dsp.Shared.TransferMessages.{TransferMessage, DataAddress}
use run_dsp.Transfer.State.{State, Direction, eq_state}
use run_dsp.Transfer.Request.{Request, set_provider_pid}
use run_dsp.StateMachine.TransferRecv.{
  Env, Error, target_not_found, ProviderCall, shut_down, Session, Transition, verify_and_transform,
  lift_set, guard, when, is_nil, learn_provider, learn_publish_info,
}

-- The party that published a dataset shuts its transfer down: the provider where the consumer pulls,
-- the consumer where the provider pushes.
abbrev pub shutdown_of : (x : Extern) → Direction → Request x → List ProviderCall
shutdown_of x Direction.pull tr =
    if is_provider tr.role then shut_down (x.uuid_string tr.provider_pid) ∷ [] else []
shutdown_of x Direction.push tr =
    if is_consumer tr.role then shut_down (x.uuid_string tr.consumer_pid) ∷ [] else []
shutdown_of x _ tr = []

abbrev pub owed : (x : Extern) → TransferMessage x → Request x → List ProviderCall
owed x (TransferMessage.completion t) tr =
    if eq_state tr.state State.started then shutdown_of x tr.transfer_direction tr else []
owed x _ tr = []

-- The call leaves the provider alone.
module _ (x : Extern) (env : Env x) where
  record IsQuiet {A : Type 0} (m : Transition x env A) : Type 0 where
    pub at : (s : Session x) → (m s).1.calls ≡ s.calls

module _ (x : Extern) (env : Env x) where
  resume-calls :
      {A B : Type 0} (r : Outcome Error A × Session x) (k : A → Transition x env B)
      → ((a : A) → IsQuiet x env (k a))
      → (resume r.0 k r.1).1.calls ≡ r.1.calls
  resume-calls (ok a, s) k q = (q a).at s
  resume-calls (err e, s) k q = refl
  resume-calls (panicked, s) k q = refl

  bind-IsQuiet :
      {A B : Type 0} (m : Transition x env A) (k : A → Transition x env B)
      → IsQuiet x env m
      → ((a : A) → IsQuiet x env (k a))
      → IsQuiet x env (m >>= k)
  bind-IsQuiet m k p q = record { at = λ s. resume-calls (m s) k q ∙ p.at s }

  get-IsQuiet : {A : Type 0} (f : Session x → A) → IsQuiet x env (get f)
  get-IsQuiet f = record { at = λ s. refl }

  raise-IsQuiet : (e : Error) → IsQuiet x env {A = Unit {0}} (raise e)
  raise-IsQuiet e = record { at = λ s. refl }

  panic-IsQuiet : IsQuiet x env {A = Unit {0}} panic
  panic-IsQuiet = record { at = λ s. refl }

  guard-IsQuiet :
      (f : Request x → Bool) (e : Error) → IsQuiet x env (λ s. guard x env (f s.request) e s)
  guard-IsQuiet f e = record { at = λ s. ground arith }

  dataset-IsQuiet : IsQuiet x env (λ s.
      guard x env
        (not (str_eq s.request.format "HTTP_PULL") || env.get_dataset s.request.target)
        target_not_found
        s)
  dataset-IsQuiet = record { at = λ s. ground arith }

  verify-IsQuiet : (p c : String) (t : State) → IsQuiet x env (verify_and_transform x env p c t)
  unfolding verify_and_transform
  verify-IsQuiet p c t = record { at = λ s. ground arith }

  new_provider_pid-IsQuiet : IsQuiet x env (λ s.
      when x env
        (is_nil x env s.request.provider_pid)
        (lift_set x env (set_provider_pid x env.new_uuid))
        s)
  new_provider_pid-IsQuiet = record { at = λ s. ground arith }

  learn_provider-IsQuiet :
      (p : String)
      → IsQuiet x env
          (λ s. when x env (is_nil x env s.request.provider_pid) (learn_provider x env p) s)
  learn_provider-IsQuiet p = record { at = λ s. ground arith }

  learn_publish_info-IsQuiet :
      (d : Option DataAddress)
      → IsQuiet x env
          (λ s. when x env (not (is_some s.request.publish_info)) (learn_publish_info x env d) s)
  learn_publish_info-IsQuiet d = record { at = λ s. ground arith }

ruleset quiet_rules = (
  bind-IsQuiet, get-IsQuiet, raise-IsQuiet, panic-IsQuiet, dataset-IsQuiet, verify-IsQuiet,
  new_provider_pid-IsQuiet, learn_provider-IsQuiet, learn_publish_info-IsQuiet,
)
