-- ===== src/Concurrent/Task.antt =====
-- Tasks: what an `async fn` is to its executor.
use anon_ticket.Base.{
  Bool, true, false, if◌then◌else◌, ◌≡◌, refl, ap, ◌∙◌, Result, ok, err, panic, Action, ◌>>=◌,
}
use anon_ticket.Env.{Env, World}
use anon_ticket.Ledger.{Steps, Steps-trans}
use anon_ticket.Storage.Moves.{tables_of, Moves}

-- A task has its result, or it does a step: a change of the shared state, and the rest of the task,
-- which depends on the state before.
pub data Task (env : Env) (E A : Type 0) : Type 0 where
  finish : Result E A → Task env E A
  step : (World env → World env) → (World env → Task env E A) → Task env E A

infixl 5 ◌>>>◌
abbrev pub ◌>>>◌ : {env : Env} {E A B : Type 0} → Task env E A → (A → Task env E B) → Task env E B
finish (ok a) >>> f = f a
finish (err e) >>> f = finish (err e)
finish panic >>> f = finish panic
step s k >>> f = step s (λ w. k w >>> f)

module _ (env : Env) where
  -- The code up to the next `await`, or one awaited call, as one step: steps that two threads take at
  -- once are put one after the other.
  abbrev pub atomic : {E A : Type 0} → Action (World env) E A → Task env E A
  atomic m = step (λ w. (m w).1) (λ w. finish (m w).0)

  -- A task whose result is looked at, errors included.
  abbrev pub caught : {E F A : Type 0} → Task env E A → Task env F (Result E A)
  caught (finish r) = finish (ok r)
  caught (step s k) = step s (λ w. caught (k w))

  -- The task alone, run to its end.
  abbrev pub run : {E A : Type 0} → Task env E A → Action (World env) E A
  run (finish r) w = (r, w)
  run (step s k) w = run (k w) (s w)

  pub run->>> :
      {E A B : Type 0} (t : Task env E A) (f : A → Task env E B) (g : A → Action (World env) E B)
      (w : World env)
      → ((a : A) (v : World env) → run (f a) v ≡ g a v)
      → run (t >>> f) w ≡ (run t >>= g) w
  run->>> (finish (ok a)) f g w same = same a w
  run->>> (finish (err e)) f g w same = refl
  run->>> (finish panic) f g w same = refl
  run->>> (step s k) f g w same = run->>> (k w) f g (s w) same

  -- The same with the first part replaced by what it runs as.
  pub run_then :
      {E A B : Type 0} (t : Task env E A) (f : A → Task env E B) (m : Action (World env) E A)
      (g : A → Action (World env) E B) (w : World env)
      → run t w ≡ m w
      → ((a : A) (v : World env) → run (f a) v ≡ g a v)
      → run (t >>> f) w ≡ (m >>= g) w
  run_then t f m g w first same =
      run->>> t f g w same
      ∙ ap (λ x. elim x.0 [ ok a ↦ g a x.1 | err e ↦ (err e, x.1) | panic ↦ (panic, x.1) ]) first

  pub run-caught :
      {E F A : Type 0} (t : Task env E A) (w : World env)
      → run (caught {F = F} t) w ≡ (ok (run t w).0, (run t w).1)
  run-caught (finish r) w = refl
  run-caught (step s k) w = run-caught (k w) (s w)

  -- A task whose result, whatever it is, is replaced by another.
  pub run-caught_then :
      {E F A B : Type 0} (t : Task env E A) (g : Result E A → Result F B)
      (x : Result E A × World env) (w : World env)
      → run t w ≡ x
      → run (caught {F = F} t >>> λ r. finish (g r)) w ≡ (g x.0, x.1)
  run-caught_then (finish r) g x w e = ap (λ y. (g y.0, y.1)) e
  run-caught_then (step s k) g x w e = run-caught_then (k w) g x (s w) e

  -- Each step of the task moves the ledger by its own steps, from any later state of the tables, as
  -- the others may have changed them; and a value that it returns meets the condition.
  abbrev pub Ensures : {E A : Type 0} → Task env E A → (A → World env → Type 0) → World env → Type 0
  Ensures (finish (ok a)) Q w = Q a w
  Ensures (finish (err _)) Q w = Unit {0}
  Ensures (finish panic) Q w = Unit {0}
  Ensures (step s k) Q w =
      (v : World env)
      → Steps env.codec (tables_of env w) (tables_of env v)
      → Steps env.codec (tables_of env v) (tables_of env (s v)) × Ensures (k v) Q (s v)

  -- No condition on the value.
  abbrev pub Any : {A : Type 0} → A → World env → Type 0
  Any _ _ = Unit {0}

  abbrev pub IsLawful : {E A : Type 0} → Task env E A → World env → Type 0
  IsLawful t w = Ensures t Any w

  -- What holds of a task goes on to hold while others run.
  pub IsLawful-later :
      {E A : Type 0} (t : Task env E A) (w v : World env)
      → Steps env.codec (tables_of env w) (tables_of env v)
      → IsLawful t w
      → IsLawful t v
  IsLawful-later (finish (ok a)) w v h l = tt
  IsLawful-later (finish (err e)) w v h l = tt
  IsLawful-later (finish panic) w v h l = tt
  IsLawful-later (step s k) w v h l = λ u later. l u (Steps-trans h later)

  pub >>>-Ensures :
      {E A B : Type 0} (t : Task env E A) (f : A → Task env E B) (Q : A → World env → Type 0)
      (R : B → World env → Type 0) (w : World env)
      → Ensures t Q w
      → ((a : A) (v : World env) → Q a v → Ensures (f a) R v)
      → Ensures (t >>> f) R w
  >>>-Ensures (finish (ok a)) f Q R w h rest = rest a w h
  >>>-Ensures (finish (err e)) f Q R w h rest = tt
  >>>-Ensures (finish panic) f Q R w h rest = tt
  >>>-Ensures (step s k) f Q R w h rest =
      λ v later. let (moves, next) = h v later in (moves, >>>-Ensures (k v) f Q R (s v) next rest)

  pub caught-IsLawful :
      {E A : Type 0} (F : Type 0) (t : Task env E A) (w : World env)
      → IsLawful t w
      → IsLawful (caught {F = F} t) w
  caught-IsLawful F (finish r) w h = tt
  caught-IsLawful F (step s k) w h =
      λ v later. let (moves, next) = h v later in (moves, caught-IsLawful F (k v) (s v) next)

  returned :
      {E A : Type 0} (r : Result E A) (Q : A → World env → Type 0) (w : World env)
      → ((a : A) → r ≡ ok a → Q a w)
      → Ensures (finish r) Q w
  returned (ok a) Q w h = h a refl
  returned (err e) Q w h = tt
  returned panic Q w h = tt

  pub atomic-Ensures :
      {E A : Type 0} (m : Action (World env) E A) (Q : A → World env → Type 0) (w : World env)
      → ((v : World env)
          → Steps env.codec (tables_of env w) (tables_of env v)
          → Moves env m v × ((a : A) → (m v).0 ≡ ok a → Q a (m v).1))
      → Ensures (atomic m) Q w
  atomic-Ensures m Q w h =
      λ v later. let (moves, value) = h v later in (moves, returned (m v).0 Q (m v).1 value)

  -- A call that moves the ledger lawfully wherever it is made.
  pub atomic-IsLawful :
      {E A : Type 0} (m : Action (World env) E A) (w : World env)
      → ((v : World env) → Moves env m v)
      → IsLawful (atomic m) w
  atomic-IsLawful m w h = atomic-Ensures m Any w (λ v _. (h v, λ _ _. tt))

  pub finish-IsLawful : {E A : Type 0} (r : Result E A) (w : World env) → IsLawful (finish r) w
  finish-IsLawful (ok a) w = tt
  finish-IsLawful (err e) w = tt
  finish-IsLawful panic w = tt

  pub if-IsLawful :
      {E A : Type 0} (b : Bool) (t u : Task env E A) (w : World env)
      → (b ≡ true → IsLawful t w)
      → (b ≡ false → IsLawful u w)
      → IsLawful (if b then t else u) w
  if-IsLawful true t u w h k = h refl
  if-IsLawful false t u w h k = k refl
