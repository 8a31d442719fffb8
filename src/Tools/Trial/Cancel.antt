-- ===== src/Tools/Trial/Cancel.antt =====
-- `cancel_trial`, on each status.
use labloop.Prelude.{String, some, string_eq}
use labloop.Json.{Text}
use labloop.Models.{Trial, TrialStatus, trial_status_eq}
use labloop.Store.State.{State}
use labloop.Store.Trials.{coalesce}

-- The two rows that a cancelled trial may become.
abbrev pub given_up : String → Trial → Trial
given_up now t = record t {
  status = TrialStatus.abandoned;
  finished_at = coalesce t.finished_at now;
}

abbrev pub killed : Text → String → Trial → Trial
killed cancelled now t = record t {
  status = TrialStatus.failed;
  finished_at = coalesce t.finished_at now;
  executor_output_json = some cancelled;
}
