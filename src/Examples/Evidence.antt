-- ===== src/Examples/Evidence.antt =====
-- The theorems on observations, beliefs, withdrawals, the start and the end of a trial and the records, at concrete stores.
use labloop.Prelude.{String, ◌≡◌, ◌⊎◌, Option, some, string_eq}
use labloop.Json.{Json, Fields, num, pos, end, field, obj, literal, str}
use labloop.Exec.{ok, err}
use labloop.Models.{Trial, HypothesisStatus}
use labloop.Tools.Hypothesis.{abandon_hypothesis}
use labloop.Tools.Hypothesis.Abandon.{Withdrawn, abandon_hypothesis-outcome}
use labloop.Store.State.{State, Error}
use labloop.Tools.Evidence.{Posterior, record_observation, update_belief}
use labloop.Tools.Evidence.Outcome.{Observed, record_observation-outcome}
use labloop.Tools.Evidence.Outcome.Believed.{Updated, update_belief-outcome}
use labloop.Examples.{concludable}

abbrev metrics : Json
metrics = obj (field "loss" (num (pos 5) 1) end)

abbrev variance : Json
variance = obj (field "loss" (num (pos 1) 2) end)

record_observation-outcome_example :
    ((s' : State) × (record_observation "trial-1" metrics variance "lab" "obs-2" "t9" concludable
        ≡ (ok "obs-2", s'))
      × Observed "trial-1" metrics variance "lab" "obs-2" "t9" concludable s')
    ⊎ ((e : Error) × (record_observation "trial-1" metrics variance "lab" "obs-2" "t9" concludable
          ≡ (err e, concludable)))
record_observation-outcome_example =
    record_observation-outcome "trial-1" metrics variance "lab" "obs-2" "t9" concludable

-- An optimizer role that answers with what it was told and the direction.
abbrev optimizer : String → String → Fields → String → Option Posterior
optimizer programme trial told direction =
    some (record { best_trials = obj told; param_importance = str (literal direction) })

update_belief-outcome_example :
    ((s' : State) × (update_belief optimizer "prog-1" "trial-1" "obs-1" "belief-2" "t9" concludable
        ≡ (ok "belief-2", s'))
      × Updated optimizer "prog-1" "trial-1" "obs-1" "belief-2" "t9" concludable s')
    ⊎ ((e : Error) × (update_belief optimizer "prog-1" "trial-1" "obs-1" "belief-2" "t9" concludable
          ≡ (err e, concludable)))
update_belief-outcome_example =
    update_belief-outcome optimizer "prog-1" "trial-1" "obs-1" "belief-2" "t9" concludable

abandon_hypothesis-outcome_example :
    ((status : HypothesisStatus) × (s' : State) × (abandon_hypothesis "prog-1" "hyp-1" " no time "
          "a reader" "t9" concludable
        ≡ (ok status, s'))
      × Withdrawn "prog-1" "hyp-1" " no time " "a reader" "t9" status concludable s')
    ⊎ ((e : Error) × (abandon_hypothesis "prog-1" "hyp-1" " no time " "a reader" "t9" concludable
          ≡ (err e, concludable)))
abandon_hypothesis-outcome_example =
    abandon_hypothesis-outcome "prog-1" "hyp-1" " no time " "a reader" "t9" concludable
