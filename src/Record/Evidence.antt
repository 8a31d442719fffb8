-- ===== src/Record/Evidence.antt =====
-- The gate on 'completed' and the key 'corrections'.
use labloop.Prelude.{◌≡◌, some, string_eq}
use labloop.Json.{Json, Fields, obj, document, put}
use labloop.Json.Laws.{has-put, get_or-put}
use labloop.Record.{record_evidences_completion, completion_failure_signals}

-- A write of the key 'corrections' leaves the verdict of the record as it was.
pub evidences-put_corrections :
    (out : Fields) (v : Json)
    → record_evidences_completion (some (document (obj (put "corrections" v out))))
      ≡ record_evidences_completion (some (document (obj out)))
unfolding record_evidences_completion completion_failure_signals
evidences-put_corrections out v = simp (has-put, get_or-put)
