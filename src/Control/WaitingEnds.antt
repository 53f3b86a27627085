-- ===== src/Control/WaitingEnds.antt =====
-- dsp/control/control.go: when the loops that wait for a negotiation end.
use run_dsp.Prelude.{ℕ, zero, suc, ◌≡◌, refl, ap, true, false, some}
use run_dsp.Exec.{err}
use run_dsp.Extern.{Extern}
use run_dsp.Role.{DataspaceRole, consumer, provider}
use run_dsp.Contract.State
use run_dsp.Contract.Negotiation.{Negotiation, local_pid}
use run_dsp.Control.Code.{aborted}
use run_dsp.Control.Waiting.{
  Watch, returned, waiting, read_contract, next_contract, watch_contract, watch_download,
  watch_upload,
}

module _ (x : Extern) (s : Watch x) where
  -- Whatever is read in the store, it is the same negotiation, and terminated.
  pub record StaysTerminated (role : DataspaceRole) (cn : Negotiation x) : Type 0 where
    pub pid : x.Uuid
    pub own : local_pid x cn ≡ some pid
    pub read : (w : s.Store) → s.get_contract role pid w ≡ some cn
    pub terminated : cn.state ≡ State.terminated

  not_finalized :
      (cn : Negotiation x)
      → cn.state ≡ State.terminated
      → State.eq_state cn.state State.finalized ≡ false
  not_finalized cn h = ap (λ t. State.eq_state t State.finalized) h

  is_terminated :
      (cn : Negotiation x)
      → cn.state ≡ State.terminated
      → State.eq_state cn.state State.terminated ≡ true
  is_terminated cn h = ap (λ t. State.eq_state t State.terminated) h

  watch_upload-terminated :
      (n : ℕ) (cn : Negotiation x) (w : s.Store)
      → StaysTerminated provider cn
      → watch_upload x s n cn w ≡ waiting
  unfolding watch_upload watch_contract next_contract read_contract
  watch_upload-terminated zero cn w h = refl
  watch_upload-terminated (suc n) cn w h =
      rw (not_finalized cn h.terminated, h.own, h.read (s.sleep w))
        (watch_upload-terminated n cn (s.sleep w) h)

  watch_download-terminated :
      (n : ℕ) (cn : Negotiation x) (w : s.Store)
      → StaysTerminated consumer cn
      → watch_download x s (suc n) cn w ≡ returned (err aborted)
  unfolding watch_download watch_contract next_contract read_contract
  watch_download-terminated n cn w h =
      rw (not_finalized cn h.terminated, h.own, h.read (s.sleep w), is_terminated cn h.terminated)
        refl

  -- Where every reading gives the same negotiation, terminated, the loop of the upload call is waiting
  -- still after however many turns, while that of the download call returns an error in its first
  -- turn.
  pub watch_terminated :
      (n : ℕ) (ours theirs : Negotiation x) (w : s.Store)
      → StaysTerminated provider ours
      → StaysTerminated consumer theirs
      → (watch_upload x s n ours w ≡ waiting)
        × (watch_download x s (suc n) theirs w ≡ returned (err aborted))
  watch_terminated n ours theirs w h k =
      (watch_upload-terminated n ours w h, watch_download-terminated n theirs w k)
