-- ===== src/Database/Table.antt =====
-- A table with a primary key as the list of its rows, and what SQL says of the statements on it.
use anon_ticket.Base.{
  ◌≡◌, refl, false, Option, none, some, List, [], ◌∷◌, ◌++◌, Bytes, Result, ok, err, arith,
  bytes_eq, bytes_eq_iff, Bool-cases, ◌⊎◌, inl, inr, if◌then◌else◌,
}

-- The clause `ON CONFLICT` of an insertion; `update_with` is given the old row and the new one.
pub data OnConflict (V : Type 0) : Type 0 where
  fail do_nothing : OnConflict V
  update_with : (V → V → V) → OnConflict V

pub record Insert (V : Type 0) : Type 0 where
  pub row : V
  pub on_conflict : OnConflict V

module _ {V : Type 0} (key : V → Bytes) where
  -- The row with a primary key.
  abbrev pub find : Bytes → List V → Option V
  find k [] = none
  find k (r ∷ t) = if bytes_eq (key r) k then some r else find k t

  -- Change every row with a primary key.
  abbrev pub modify : Bytes → (V → V) → List V → List V
  modify k f [] = []
  modify k f (r ∷ t) = (if bytes_eq (key r) k then f r else r) ∷ modify k f t

  -- `INSERT … ON CONFLICT (key) …`; the first argument is the message of a broken constraint.
  abbrev pub run_insert : Bytes → Insert V → List V → Result Bytes (Unit {0}) × List V
  run_insert broken s t = elim (find (key s.row) t) [
    | none ↦ (ok tt, t ++ s.row ∷ [])
    | some _ ↦ elim s.on_conflict [
      | fail ↦ (err broken, t)
      | do_nothing ↦ (ok tt, t)
      | update_with g ↦ (ok tt, modify (key s.row) (λ old. g old s.row) t)
    ]
  ]

  pub key-find : (k : Bytes) (t : List V) (r : V) → find k t ≡ some r → key r ≡ k
  key-find k [] r e = cc
  key-find k (x ∷ t) r e = ground (arith, bytes_eq_iff (key x) k, key-find k t r)

  -- The first of two rows.
  abbrev pub or_else : Option V → Option V → Option V
  or_else none o = o
  or_else (some r) o = some r

  pub find-append :
      (k : Bytes) (t : List V) (r : V)
      → find k (t ++ r ∷ []) ≡ or_else (find k t) (if bytes_eq (key r) k then some r else none)
  find-append k [] r = refl
  find-append k (x ∷ t) r = ground (arith, find-append k t r)

  -- A row that is found after an insertion was there before, or is the new one.
  pub find-append_back :
      (k : Bytes) (t : List V) (r s : V)
      → find k (t ++ r ∷ []) ≡ some s
      → (find k t ≡ some s) ⊎ (s ≡ r)
  find-append_back k [] r s e = ground arith
  find-append_back k (x ∷ t) r s e = elim (Bool-cases (bytes_eq (key x) k)) [
    | inl here ↦ inl (rw here (rw here at e))
    | inr there ↦ rw there (find-append_back k t r s (rw there at e))
  ]

  module _ (f : V → V) (same_key : (r : V) → key (f r) ≡ key r) where
    pub find-modify_self :
        (k : Bytes) (t : List V) (r : V) → find k t ≡ some r → find k (modify k f t) ≡ some (f r)
    find-modify_self k [] r e = cc
    find-modify_self k (x ∷ t) r e = ground (arith, same_key x, find-modify_self k t r)

    pub find-modify-none :
        (j k : Bytes) (t : List V) → find j t ≡ none → find j (modify k f t) ≡ none
    find-modify-none j k [] e = refl
    find-modify-none j k (x ∷ t) e = ground (arith, same_key x, find-modify-none j k t)

    pub find-modify_ne :
        (j k : Bytes) (t : List V) → bytes_eq j k ≡ false → find j (modify k f t) ≡ find j t
    find-modify_ne j k [] h = refl
    find-modify_ne j k (x ∷ t) h = ground (
      arith,
      same_key x,
      find-modify_ne j k t h,
      bytes_eq_iff (key x) j,
      bytes_eq_iff (key x) k,
      bytes_eq_iff j k,
    )

    -- A row that is found after a change comes from one that was found before.
    pub find-modify_back :
        (j k : Bytes) (t : List V) (s : V)
        → find j (modify k f t) ≡ some s
        → (r : V) × (find j t ≡ some r) × ((s ≡ r) ⊎ (s ≡ f r))
    find-modify_back j k [] s e = absurd (cc)
    find-modify_back j k (x ∷ t) s e = elim (Bool-cases (bytes_eq (key x) j)) [
      | inl here ↦ (
        x,
        rw here,
        elim (Bool-cases (bytes_eq (key x) k)) [
          | inl hit ↦ inr (ground (arith, same_key x))
          | inr miss ↦ inl (ground arith)
        ],
      )
      | inr there ↦ rw there (find-modify_back j k t s (ground (arith, same_key x)))
    ]
