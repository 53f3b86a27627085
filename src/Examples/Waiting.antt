-- ===== src/Examples/Waiting.antt =====
-- The loops that wait, with a negotiation that is terminated, and a transfer that is found.
use run_dsp.Prelude.{ℕ, zero, suc, ◌≡◌, refl, none, some, [], ◌∷◌}
use run_dsp.Exec.{err}
use run_dsp.Role.{DataspaceRole, consumer, provider}
use run_dsp.Contract.State.{State}
use run_dsp.Contract.Negotiation.{Negotiation, local_pid}
use run_dsp.Control.Code.{aborted}
use run_dsp.Control.Waiting.{Watch, returned, waiting, watch_download, watch_upload, find_wanted}
use run_dsp.Control.WaitingEnds.{StaysTerminated, watch_terminated}
use run_dsp.Examples.World.{world, unary}
use run_dsp.Examples.Contracts.{negotiation}
use run_dsp.Examples.Transfers.{request}

abbrev by_second : ℕ → State
by_second zero = State.agreed
by_second (suc zero) = State.verified
by_second _ = State.finalized

-- The store is the time that has passed.
abbrev clocked : Watch world
clocked = record {
  Store = ℕ;
  get_contract = λ role pid w. some (negotiation (by_second w));
  get_transfer = λ role pid w. none;
  get_transfers = λ w. some (request ∷ []);
  sleep = suc;
}

abbrev ended : DataspaceRole → Negotiation world
ended role = record (negotiation State.terminated) { role = role }

abbrev stopped : Watch world
stopped = record clocked { get_contract = λ role pid w. some (ended role) }

ours_ended : StaysTerminated world stopped provider (ended provider)
unfolding local_pid
ours_ended = record { pid = 1; own = refl; read = λ w. refl; terminated = refl }

theirs_ended : StaysTerminated world stopped consumer (ended consumer)
unfolding local_pid
theirs_ended = record { pid = 2; own = refl; read = λ w. refl; terminated = refl }

watch_terminated_example :
    (watch_upload world stopped 60 (ended provider) 0 ≡ waiting)
    × (watch_download world stopped 61 (ended consumer) 0 ≡ returned (err aborted))
watch_terminated_example =
    watch_terminated world stopped 60 (ended provider) (ended consumer) 0 ours_ended theirs_ended

finds_started : find_wanted world clocked "urn:uuid:xxx" (request ∷ []) ≡ some request
unfolding find_wanted unary
finds_started = refl
