-- ===== src/Commitments/Active.antt =====
-- What a programme is that the check on active programmes lets pass.
use labloop.Prelude.{◌≡◌, refl, Option, none, some, arith}
use labloop.Models.{Programme, ProgrammeStatus, programme_status_eq}
use labloop.Commitments.{check_programme_active}

pub active-programme :
    (found : Option Programme)
    → check_programme_active found ≡ none
    → (p : Programme) × (found ≡ some p) × (p.status ≡ ProgrammeStatus.active)
unfolding check_programme_active
active-programme none e = absurd (ground arith)
active-programme (some p) e = (p, refl, ground arith)
