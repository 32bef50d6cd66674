-- ===== src/Base/Effects.antt =====
-- What a call of the program does: it returns a value, returns an error, or panics.
use mathlib.Core.Path.{◌≡◌, refl, ◌∙◌, ap}
use mathlib.Core.Logic.{◌⊎◌, inl, inr}

pub data Result (E A : Type 0) : Type 0 where
  ok : A → Result E A
  err : E → Result E A
  panic : Result E A

abbrev pub map_err : {E F A : Type 0} → (E → F) → Result E A → Result F A
map_err f (ok a) = ok a
map_err f (err e) = err (f e)
map_err f panic = panic

-- `?` on a pure result.
abbrev pub and_then : {E A B : Type 0} → Result E A → (A → Result E B) → Result E B
and_then (ok a) f = f a
and_then (err e) f = err e
and_then panic f = panic

-- A call that reads and changes a state. What was written before an error stays written.
abbrev pub Action : Type 0 → Type 0 → Type 0 → Type 0
Action S E A = S → Result E A × S

infixl 5 ◌>>=◌ ◌>>◌
abbrev pub ◌>>=◌ : {S E A B : Type 0} → Action S E A → (A → Action S E B) → Action S E B
◌>>=◌ m f s =
    let (r, s') = m s in elim r [ ok a ↦ f a s' | err e ↦ (err e, s') | panic ↦ (panic, s') ]

abbrev pub ◌>>◌ : {S E B : Type 0} → Action S E (Unit {0}) → Action S E B → Action S E B
m >> k = m >>= λ _. k

abbrev pub from_result : {S E A : Type 0} → Result E A → Action S E A
from_result r s = (r, s)

abbrev pub pure : {S E A : Type 0} → A → Action S E A
pure a s = (ok a, s)

abbrev pub raise : {S E A : Type 0} → E → Action S E A
raise e s = (err e, s)

-- `?` with a conversion of the error.
abbrev pub lift_err : {S E F A : Type 0} → (E → F) → Action S E A → Action S F A
lift_err f m s = let (r, s') = m s in (map_err f r, s')

pub Result-cases :
    {E A : Type 0} (r : Result E A) → ((a : A) × (r ≡ ok a)) ⊎ ((e : E) × (r ≡ err e)) ⊎ (r ≡ panic)
Result-cases (ok a) = inl (a, refl)
Result-cases (err e) = inr (inl (e, refl))
Result-cases panic = inr (inr refl)

pub lift_err-ok :
    {S E F A : Type 0} (f : E → F) (m : Action S E A) (s : S) (a : A)
    → (lift_err f m s).0 ≡ ok a
    → (m s).0 ≡ ok a
lift_err-ok f m s a h = elim (Result-cases (m s).0) [
  | inl (b, e) ↦ e ∙ ap (λ r. r) (cc (rw e at h))
  | inr (inl (x, e)) ↦ absurd (cc (rw e at h))
  | inr (inr e) ↦ absurd (cc (rw e at h))
]
