-- ===== src/Arete/Closing.antt =====
-- The life of a canary record.
use labloop.Prelude.{String, ◌≡◌, refl, sym, true, false, some, arith, inl, inr, Option-cases}
use mathlib.Core.Path.{subst}
use labloop.Exec.{ok, err}
use labloop.Table.Laws.{fetch-update_self}
use labloop.Arete.Models.{CanaryDeployment, CanaryStatus}
use labloop.Arete.Store.{Lab, Error, canary_id, get_canary, close_canary_row, canary_closed}
use labloop.Arete.Canaries.{close_canary, is_opened, is_closing}

abbrev pub closed_as : CanaryStatus → String → CanaryDeployment → CanaryDeployment
closed_as status now c = record c { status = status; closed_at = some now }

module _ (id : String) (status : CanaryStatus) (now : String) (l : Lab) where
  close-same : {e : Error} {l' : Lab} → close_canary id status now l ≡ (err e, l') → l' ≡ l
  unfolding close_canary
  close-same h = ground arith

  close_found :
      {u : Unit {0}} {l' : Lab}
      → close_canary id status now l ≡ (ok u, l')
      → (c : CanaryDeployment) × (get_canary id l ≡ some c)
        × (is_opened c.status ≡ true)
        × (is_closing status ≡ true)
        × (l' ≡ close_canary_row id status now l)
  unfolding close_canary
  close_found h = elim (Option-cases (get_canary id l)) [
    | inl missing ↦ absurd (ground arith)
    | inr (c, found) ↦ (c, found, ground arith, ground arith, ground arith)
  ]

  closed_row :
      (c : CanaryDeployment)
      → get_canary id l ≡ some c
      → get_canary id (close_canary_row id status now l) ≡ some (closed_as status now c)
  unfolding get_canary close_canary_row
  closed_row c found =
      fetch-update_self canary_id (closed_as status now) (λ x. refl) id l.canaries found

  closing_closed : is_closing status ≡ true → is_opened status ≡ false
  closing_closed h = go status h
    where
      go : (t : CanaryStatus) → is_closing t ≡ true → is_opened t ≡ false
      go CanaryStatus.opened h = absurd (ground arith)
      go CanaryStatus.passed h = refl
      go CanaryStatus.regressed h = refl

refused_again :
    (id : String) (status : CanaryStatus) (now : String) (l : Lab) (c : CanaryDeployment)
    → get_canary id l ≡ some c
    → is_opened c.status ≡ false
    → close_canary id status now l ≡ (err canary_closed, l)
unfolding close_canary
refused_again id status now l c found shut = ground arith

-- A canary that `close_canary` closed was open, and now has the status and the time that it was
-- given; every later call of `close_canary` on it is refused and changes nothing.
pub close_canary-final :
    (id : String) (status : CanaryStatus) (now : String) (l : Lab) {u : Unit {0}} {l' : Lab}
    → close_canary id status now l ≡ (ok u, l')
    → ((c : CanaryDeployment) × (get_canary id l ≡ some c)
        × (c.status ≡ CanaryStatus.opened)
        × (get_canary id l' ≡ some (closed_as status now c)))
      × ((again : CanaryStatus) (later : String)
          → close_canary id again later l' ≡ (err canary_closed, l'))
close_canary-final id status now l {u} {l'} done =
    let (c, found, before, closing, eq) = close_found id status now l done in
    let row =
      subst (λ z. get_canary id z ≡ some (closed_as status now c)) (sym eq)
        (closed_row id status now l c found) in
    (
      (c, found, opened_is c.status before, row),
      λ again later.
          refused_again id again later l' (closed_as status now c) row
            (closing_closed id status now l closing),
    )
  where
    opened_is : (t : CanaryStatus) → is_opened t ≡ true → t ≡ CanaryStatus.opened
    opened_is CanaryStatus.opened h = refl
    opened_is CanaryStatus.passed h = absurd (ground arith)
    opened_is CanaryStatus.regressed h = absurd (ground arith)
