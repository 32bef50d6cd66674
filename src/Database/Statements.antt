-- ===== src/Database/Statements.antt =====
-- The engine that runs the statements: SeaORM and the database behind it. It is a parameter; its
-- laws say that a statement does what SQL documents, or ends in an error.
use anon_ticket.Base.{
  ◌≡◌, Option, none, some, List, map, Bytes, Result, ok, err, panic, if◌then◌else◌,
}
use anon_ticket.Database.Table.{Insert, find, modify, run_insert}
use anon_ticket.Database.Entity.{
  PaymentModel, TokenModel, StateModel, payment_key, token_key, state_key, meets, assign_payment,
  UpdatePayment, TokenSet, assign_token,
}

pub record Tables : Type 0 where
  pub payments : List PaymentModel
  pub tokens : List TokenModel
  pub monitor_state : List StateModel

pub data DatabaseBackend : Type 0 where
  sqlite postgres my_sql : DatabaseBackend

-- How a statement can end in an error that is none of its own: refused before it did anything, or
-- carried out with its reply lost. The text is that of the error.
pub data Fault : Type 0 where
  refused lost : Bytes → Fault

-- A statement's reply, or the text of its error, and the database after it.
abbrev pub Statement : Type 0 → Type 0 → Type 0
Statement Db A = Db → Result Bytes A × Db

pub record Engine : Type 1 where
  pub Db : Type 0
  pub tables : Db → Tables
  pub backend : Db → DatabaseBackend
  -- What befalls the next statement, if anything does.
  pub fault : Db → Option Fault
  -- The texts of the errors for a broken primary key and for an update that meets no row.
  pub broken_key : Bytes
  pub not_updated : Bytes
  pub insert_payment : Insert PaymentModel → Statement Db (Unit {0})
  pub update_payment : UpdatePayment → Statement Db (Option PaymentModel)
  pub select_payment : Bytes → Statement Db (Option PaymentModel)
  pub select_pids : Statement Db (List Bytes)
  pub insert_token : Insert TokenModel → Statement Db TokenModel
  pub select_token : Bytes → Statement Db (Option TokenModel)
  pub update_token : Bytes → List TokenSet → Statement Db TokenModel
  pub insert_state : Insert StateModel → Statement Db (Unit {0})
  pub select_state : Bytes → Statement Db (Option StateModel)

-- The statements by the letter of SQL, on the tables.
abbrev pub Meaning : Type 0 → Type 0
Meaning A = Tables → Result Bytes A × Tables

abbrev pub settle : {S A : Type 0} → Option Fault → Statement S A → Statement S A
settle none run t = run t
settle (some (refused m)) run t = (err m, t)
settle (some (lost m)) run t = (err m, (run t).1)

abbrev pub insert_payment_meaning : Bytes → Insert PaymentModel → Meaning (Unit {0})
insert_payment_meaning broken s t =
    let (r, rows) = run_insert payment_key broken s t.payments in (r, record t { payments = rows })

-- The row that an update returns is the one that it changed.
abbrev pub update_payment_meaning : UpdatePayment → Meaning (Option PaymentModel)
update_payment_meaning u t = elim (find payment_key u.pid t.payments) [
  | none ↦ (ok none, t)
  | some r ↦
      if meets u.and_where r
      then (
        ok (some (assign_payment u.values r)),
        record t { payments = modify payment_key u.pid (assign_payment u.values) t.payments },
      )
      else (ok none, t)
]

abbrev pub select_payment_meaning : Bytes → Meaning (Option PaymentModel)
select_payment_meaning k t = (ok (find payment_key k t.payments), t)

abbrev pub select_pids_meaning : Meaning (List Bytes)
select_pids_meaning t = (ok (map payment_key t.payments), t)

abbrev pub insert_token_meaning : Bytes → Insert TokenModel → Meaning TokenModel
insert_token_meaning broken s t =
    let (r, rows) = run_insert token_key broken s t.tokens in
    (elim r [ ok _ ↦ ok s.row | err m ↦ err m | panic ↦ panic ], record t { tokens = rows })

abbrev pub select_token_meaning : Bytes → Meaning (Option TokenModel)
select_token_meaning k t = (ok (find token_key k t.tokens), t)

abbrev pub update_token_meaning : Bytes → Bytes → List TokenSet → Meaning TokenModel
update_token_meaning missing k l t = elim (find token_key k t.tokens) [
  | none ↦ (err missing, t)
  | some r ↦
      (ok (assign_token l r), record t { tokens = modify token_key k (assign_token l) t.tokens })
]

abbrev pub insert_state_meaning : Bytes → Insert StateModel → Meaning (Unit {0})
insert_state_meaning broken s t =
    let (r, rows) = run_insert state_key broken s t.monitor_state in
    (r, record t { monitor_state = rows })

abbrev pub select_state_meaning : Bytes → Meaning (Option StateModel)
select_state_meaning k t = (ok (find state_key k t.monitor_state), t)

module _ (e : Engine) where
  -- A statement has its meaning, or fails by the fault that befalls it.
  abbrev pub Obeys : {A : Type 0} → Statement e.Db A → Meaning A → Type 0
  Obeys run meaning =
      (d : e.Db)
      → ((run d).0 ≡ (settle (e.fault d) meaning (e.tables d)).0)
        × (e.tables (run d).1 ≡ (settle (e.fault d) meaning (e.tables d)).1)

  pub record IsEngine : Type 0 where
    pub insert_payment_obeys :
        (s : Insert PaymentModel)
        → Obeys (e.insert_payment s) (insert_payment_meaning e.broken_key s)
    pub update_payment_obeys :
        (u : UpdatePayment) → Obeys (e.update_payment u) (update_payment_meaning u)
    pub select_payment_obeys : (k : Bytes) → Obeys (e.select_payment k) (select_payment_meaning k)
    pub select_pids_obeys : Obeys e.select_pids select_pids_meaning
    pub insert_token_obeys :
        (s : Insert TokenModel) → Obeys (e.insert_token s) (insert_token_meaning e.broken_key s)
    pub select_token_obeys : (k : Bytes) → Obeys (e.select_token k) (select_token_meaning k)
    pub update_token_obeys :
        (k : Bytes) (l : List TokenSet)
        → Obeys (e.update_token k l) (update_token_meaning e.not_updated k l)
    pub insert_state_obeys :
        (s : Insert StateModel) → Obeys (e.insert_state s) (insert_state_meaning e.broken_key s)
    pub select_state_obeys : (k : Bytes) → Obeys (e.select_state k) (select_state_meaning k)

  -- No statement fails but by its own doing.
  abbrev pub IsReliable : Type 0
  IsReliable = (d : e.Db) → e.fault d ≡ none
