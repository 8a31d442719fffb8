-- ===== src/Tools/Hypothesis.antt =====
-- `formulate_hypothesis` and `abandon_hypothesis` of
-- ml-scientist/src/ml_episteme_mcp/tools/hypothesis.py. The variables are a decoded list.
pub mod Abandon
use labloop.Prelude.{String, List}
use labloop.Exec.{pure, gets, refuse, raise_if, or_raise, ◌>>=◌, ◌>>◌}
use labloop.Strings.{is_blank, strip}
use labloop.Models.New.{new_hypothesis}
use labloop.Models.{HypothesisStatus}
use labloop.Store.State.{rationale_required, decided_by_required, hypothesis_not_found}
use labloop.Store.Rows.{Act, get_programme, get_hypothesis, create_hypothesis}
use labloop.Store.Hypotheses.{abandon_hypothesis_row}
use labloop.Commitments.{
  check_falsifiability, check_programme_active, check_hypothesis_in_programme,
}

unfoldable pub formulate_hypothesis :
    String → String → String → List String → String → String → Act String
formulate_hypothesis programme statement criterion variables id now = do
  refuse (check_falsifiability criterion)
  p ← gets (get_programme programme)
  refuse (check_programme_active p)
  create_hypothesis (new_hypothesis programme statement criterion variables id now)
  pure id

-- The rationale and the decider are stored without the white space around them.
unfoldable pub abandon_hypothesis :
    String → String → String → String → String → Act HypothesisStatus
abandon_hypothesis programme hypothesis rationale decided_by now = do
  raise_if (is_blank rationale) rationale_required
  raise_if (is_blank decided_by) decided_by_required
  in_programme ← gets (check_hypothesis_in_programme programme hypothesis)
  refuse in_programme
  p ← gets (get_programme programme)
  refuse (check_programme_active p)
  found ← gets (get_hypothesis hypothesis)
  h ← or_raise found hypothesis_not_found
  abandon_hypothesis_row hypothesis (strip rationale) (strip decided_by) now
  pure h.status
