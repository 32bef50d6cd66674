-- ===== src/Storage/Catalog.antt =====
-- The tables of a database under the statements of crates/storage/src/migration.rs.
use anon_ticket.Base.{
  ◌≡◌, refl, sym, subst, ◌∙◌, ap, inl, inr, true, Option, none, some, List, [], ◌∷◌, ◌++◌, Bytes,
  ok, map_err, bytes_eq, Option-cases,
}
use anon_ticket.Database.{Fault, refused, lost, find, find-append, settle}
use anon_ticket.Env.{database}
use anon_ticket.Storage.Schema.{
  TableCreateStatement, payments_table, service_tokens_table, monitor_table, table_name,
  create_meaning,
}

-- A table is added to those there are, unless one has its name.
abbrev pub add_missing :
    TableCreateStatement → List TableCreateStatement → List TableCreateStatement
add_missing s catalog = elim (find table_name s.table catalog) [
  | none ↦ catalog ++ s ∷ []
  | some _ ↦ catalog
]

abbrev pub with_schema : List TableCreateStatement → List TableCreateStatement
with_schema catalog =
    add_missing monitor_table
      (add_missing service_tokens_table (add_missing payments_table catalog))

-- The tables that were there are there, as they were.
abbrev pub Grows : List TableCreateStatement → List TableCreateStatement → Type 0
Grows c d =
    (k : Bytes) (s : TableCreateStatement)
    → find table_name k c ≡ some s
    → find table_name k d ≡ some s

add_missing-new :
    (s : TableCreateStatement) (c : List TableCreateStatement)
    → find table_name s.table c ≡ none
    → add_missing s c ≡ c ++ s ∷ []
add_missing-new s c new = rw (new, add_missing) refl

add_missing-same :
    (s t : TableCreateStatement) (c : List TableCreateStatement)
    → find table_name s.table c ≡ some t
    → add_missing s c ≡ c
add_missing-same s t c found = rw (found, add_missing) refl

add_missing-Grows :
    (s : TableCreateStatement) (c : List TableCreateStatement) → Grows c (add_missing s c)
add_missing-Grows s c k t found = elim (Option-cases (find table_name s.table c)) [
  | inl new ↦
      ap (find table_name k) (add_missing-new s c new)
      ∙ find-append table_name k c s
      ∙ (rw found refl)
  | inr (old, is) ↦ ap (find table_name k) (add_missing-same s old c is) ∙ found
]

add_missing-found :
    (s : TableCreateStatement) (c : List TableCreateStatement)
    → bytes_eq s.table s.table ≡ true
    → (t : TableCreateStatement) × (find table_name s.table (add_missing s c) ≡ some t)
add_missing-found s c self = elim (Option-cases (find table_name s.table c)) [
  | inl new ↦ (
    s,
    ap (find table_name s.table) (add_missing-new s c new)
        ∙ find-append table_name s.table c s
        ∙ (rw (new, self) refl),
  )
  | inr (old, is) ↦ (old, ap (find table_name s.table) (add_missing-same s old c is) ∙ is)
]

-- The schema is added once.
pub with_schema_idem : (c : List TableCreateStatement) → with_schema (with_schema c) ≡ with_schema c
with_schema_idem c =
    let c₁ = add_missing payments_table c in
    let c₂ = add_missing service_tokens_table c₁ in
    let (p, has_payments) = add_missing-found payments_table c refl in
    let (t, has_tokens) = add_missing-found service_tokens_table c₁ refl in
    let (m, has_monitor) = add_missing-found monitor_table c₂ refl in
    let grow₂ = add_missing-Grows service_tokens_table c₁ in
    let grow₃ = add_missing-Grows monitor_table c₂ in
    let c₃ = with_schema c in
    ap (λ x. add_missing monitor_table (add_missing service_tokens_table x))
      (add_missing-same payments_table p c₃ (grow₃ _ p (grow₂ _ p has_payments)))
    ∙ ap (add_missing monitor_table)
        (add_missing-same service_tokens_table t c₃ (grow₃ _ t has_tokens))
    ∙ add_missing-same monitor_table m c₃ has_monitor

create_meaning-add :
    (exists : Bytes) (s : TableCreateStatement) (c : List TableCreateStatement)
    → (create_meaning exists s c).1 ≡ add_missing s c
create_meaning-add exists s c = elim (Option-cases (find table_name s.table c)) [
  | inl new ↦ rw (new, create_meaning) (sym (add_missing-new s c new))
  | inr (old, is) ↦ rw (is, create_meaning) (sym (add_missing-same s old c is))
]

pub settle-Grows :
    (f : Option Fault) (exists : Bytes) (s : TableCreateStatement) (c : List TableCreateStatement)
    → Grows c (settle f (create_meaning exists s) c).1
settle-Grows none exists s c =
    subst (Grows c) (sym (create_meaning-add exists s c)) (add_missing-Grows s c)
settle-Grows (some (refused _)) exists s c = λ k t found. found
settle-Grows (some (lost _)) exists s c =
    subst (Grows c) (sym (create_meaning-add exists s c)) (add_missing-Grows s c)

pub settle-add :
    (f : Option Fault) (exists : Bytes) (s : TableCreateStatement) (c : List TableCreateStatement)
    (u : Unit {0})
    → map_err database (settle f (create_meaning exists s) c).0 ≡ ok u
    → (settle f (create_meaning exists s) c).1 ≡ add_missing s c
settle-add none exists s c u went = create_meaning-add exists s c
settle-add (some (refused _)) exists s c u went = absurd (cc went)
settle-add (some (lost _)) exists s c u went = absurd (cc went)
