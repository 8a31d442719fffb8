-- ===== src/Arete/Steps.antt =====
-- The calls that write the champion flag, and the moves of the pointer that they stand for.
use labloop.Prelude.{
  String, ◌≡◌, ◌≢◌, ap, Bool, true, false, Option, none, some, List, [], ◌∷◌, arith, eq_iff,
}
use labloop.Exec.{Result, ok, err}
use labloop.Json.{Fields}
use labloop.Table.Laws.{All-fetch, fetch-key}
use labloop.Arete.Models.{ImproverVersion}
use labloop.Arete.Store.{Lab, Error, improver_id, get_improver}
use labloop.Arete.Pointer.{
  register_improver, promote_policy, rollback, restore_champion, settle, Claimed,
}
use labloop.Arete.Champion.{at, Pointed}
use labloop.Arete.Back.{sent_back}

-- A call of one of the handlers that write the champion flag.
pub data Op : Type 0 where
  register : ImproverVersion → Op
  promote : String → Fields → String → String → Op
  roll_back : String → String → String → List String → Claimed → String → String → Op

-- The store after a call, whatever the call answers.
unfoldable pub perform : Op → Lab → Lab
perform (register i) l = (register_improver i l).1
perform (promote candidate policy id now) l = (promote_policy candidate policy id now l).1
perform (roll_back candidate rationale decided_by refs claimed id now) l =
    (rollback candidate rationale decided_by refs claimed id now l).1

unfoldable pub run : List Op → Lab → Lab
unfolding perform
run [] l = l
run (op ∷ ops) l = run ops (perform op l)

-- Whether a call is answered without an error
abbrev pub is_ok : {A : Type 0} → Result Error A → Bool
is_ok (ok a) = true
is_ok (err e) = false

unfoldable pub answers : Op → Lab → Bool
answers (register i) l = is_ok (register_improver i l).0
answers (promote candidate policy id now) l = is_ok (promote_policy candidate policy id now l).0
answers (roll_back candidate rationale decided_by refs claimed id now) l =
    is_ok (rollback candidate rationale decided_by refs claimed id now l).0

-- The moves of the pointer in a store: a refused call leaves it; a registration sets it if it is
-- nowhere; a promotion moves it to a candidate where it does not stand; a rollback of the champion
-- sends it back, and one of another improver leaves it.
pub data Step (l : Lab) : Op → Bool → Option String → Option String → Type 0 where
  refused : {op : Op} {p : Option String} → Step l op false p p
  enters : {i : ImproverVersion} → Step l (register i) true none (some i.id)
  joins : {i : ImproverVersion} {c : String} → Step l (register i) true (some c) (some c)
  displaces :
      {candidate id now : String} {policy : Fields} {p : Option String}
      → p ≢ some candidate
      → Step l (promote candidate policy id now) true p (some candidate)
  returns :
      {candidate rationale decided_by id now : String} {refs : List String} {claimed : Claimed}
      (c : ImproverVersion)
      → get_improver candidate l ≡ some c
      → Step l
          (roll_back candidate rationale decided_by refs claimed id now)
          true
          (some candidate)
          (sent_back c l)
  rests :
      {candidate rationale decided_by id now : String} {refs : List String} {claimed : Claimed}
      {p : Option String}
      → p ≢ some candidate
      → Step l (roll_back candidate rationale decided_by refs claimed id now) true p p

-- A champion's row says where the pointer stands.
pub champion_at :
    (candidate : String) (l : Lab) (p : Option String) (c : ImproverVersion)
    → Pointed l.improvers p
    → get_improver candidate l ≡ some c
    → c.is_champion ≡ true
    → p ≡ some candidate
unfolding get_improver
champion_at candidate l none c h found on = absurd (
    ground (
      arith,
      on,
      All-fetch improver_id (λ i. i.is_champion ≡ at none i.id) candidate l.improvers h.flags found,
    ))
champion_at candidate l (some x) c h found on = ap some (
    ground (
      arith,
      on,
      All-fetch improver_id (λ i. i.is_champion ≡ at (some x) i.id) candidate l.improvers h.flags
          found,
      fetch-key improver_id candidate l.improvers found,
      eq_iff x c.id,
    ))

pub off_apart :
    (candidate : String) (l : Lab) (p : Option String) (c : ImproverVersion)
    → Pointed l.improvers p
    → get_improver candidate l ≡ some c
    → c.is_champion ≡ false
    → p ≢ some candidate
unfolding get_improver
off_apart candidate l p c h found off same = ground (
  arith,
  same,
  off,
  All-fetch improver_id (λ i. i.is_champion ≡ at p i.id) candidate l.improvers h.flags found,
  fetch-key improver_id candidate l.improvers found,
  eq_iff candidate c.id,
)

pub settle_off :
    (c : ImproverVersion) (l : Lab) {restored : Option String} {l' : Lab}
    → c.is_champion ≡ false
    → settle c l ≡ (ok restored, l')
    → l' ≡ l
unfolding settle
settle_off c l off h = ground arith

pub settle_on :
    (c : ImproverVersion) (l : Lab) {restored : Option String} {l' : Lab}
    → c.is_champion ≡ true
    → settle c l ≡ (ok restored, l')
    → restore_champion c l ≡ (ok restored, l')
unfolding settle
settle_on c l on h = ground arith
