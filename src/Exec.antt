-- ===== src/Exec.antt =====
-- Handlers that write to a store and may raise. What was written before a raise stays written,
-- since every write is committed at once, so the store comes back beside the error too.
use labloop.Prelude.{Bool, Option, none, some, ◌≡◌, ◌⊎◌, inl, inr, refl, if◌then◌else◌}

pub data Result (E A : Type 0) : Type 0 where
  ok : A → Result E A
  err : E → Result E A

abbrev pub Exec : Type 0 → Type 0 → Type 0 → Type 0
Exec S E A = S → Result E A × S

module _ {S E A : Type 0} where
  abbrev pub pure : A → Exec S E A
  pure a s = (ok a, s)

  abbrev pub raise : E → Exec S E A
  raise e s = (err e, s)

  abbrev pub gets : (S → A) → Exec S E A
  gets f s = (ok (f s), s)

  abbrev pub or_raise : Option A → E → Exec S E A
  or_raise none e = raise e
  or_raise (some a) e = pure a

infixl 5 ◌>>=◌ ◌>>◌
abbrev pub ◌>>=◌ : {S E A B : Type 0} → Exec S E A → (A → Exec S E B) → Exec S E B
◌>>=◌ m f s = let (r, s') = m s in elim r [ ok a ↦ f a s' | err e ↦ (err e, s') ]

abbrev pub ◌>>◌ : {S E A B : Type 0} → Exec S E A → Exec S E B → Exec S E B
m >> k = m >>= λ _. k

module _ {S E : Type 0} where
  -- `err = check(...); if err: return fail(err)`
  abbrev pub refuse : Option E → Exec S E (Unit {0})
  refuse none s = (ok tt, s)
  refuse (some e) s = (err e, s)

  abbrev pub raise_if : Bool → E → Exec S E (Unit {0})
  raise_if c e s = if c then (err e, s) else (ok tt, s)

  abbrev pub modify : (S → S) → Exec S E (Unit {0})
  modify f s = (ok tt, f s)

-- An action ends in a value or in an error.
pub outcome-cases :
    {S E A : Type 0} (r : Result E A × S)
    → ((a : A) × (s : S) × (r ≡ (ok a, s))) ⊎ ((e : E) × (s : S) × (r ≡ (err e, s)))
outcome-cases (ok a, s) = inl (a, s, refl)
outcome-cases (err e, s) = inr (e, s, refl)
