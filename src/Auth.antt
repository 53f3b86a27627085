-- ===== src/Auth.antt =====
-- internal/authforwarder/authnmiddleware.go: `CheckRequesterInfo` and `ExtractRequesterInfo`. The requester
-- that a context carries is `none` where it was not set.
use run_dsp.Prelude.{Option, none, some, ◌||◌, str_eq, if◌then◌else◌}
use run_dsp.Exec.{Outcome, ok, err, panicked}
use run_dsp.Extern.{Extern}

module _ (x : Extern) where
  -- From the requester of the context on.
  same_requester : (requester stored : x.RequesterInfo) → Outcome (Unit {0}) (Unit {0})
  same_requester requester stored =
      if x.is_local_origin requester || x.is_continuation requester
      then ok tt
      else if str_eq (x.identifier requester) (x.identifier stored)
      then ok tt
      else err tt

  extract_and_compare :
      (context : Option x.RequesterInfo) → x.RequesterInfo → Outcome (Unit {0}) (Unit {0})
  unfolding same_requester
  extract_and_compare none stored = panicked
  extract_and_compare (some requester) stored = same_requester requester stored

  -- A stored requester that is nil is dereferenced.
  unfoldable pub check_requester_info :
      (context stored : Option x.RequesterInfo) → Outcome (Unit {0}) (Unit {0})
  unfolding extract_and_compare
  check_requester_info context none = panicked
  check_requester_info context (some stored) =
      if x.is_unauthenticated stored || x.is_local_origin stored
      then ok tt
      else extract_and_compare context stored
