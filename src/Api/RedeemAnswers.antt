-- ===== src/Api/RedeemAnswers.antt =====
-- What the handler of crates/api/src/handlers/redeem.rs answers.
use anon_ticket.Base.{
  ◌≡◌, ◌≢◌, refl, sym, ◌∙◌, ap, subst, Bool, true, false, Option, none, some, Bytes, ok, ◌>>=◌,
  lift_err, codes, unwrap_or,
}
use anon_ticket.Model.{IsCodec, PaymentId, IsPid, derive_service_token, parse_pid}
use anon_ticket.Model.PidLaws.{parse_pid-IsPid}
use anon_ticket.Database.{
  IsEngine, IsReliable, find, payment_key, token_key, PaymentModel, PaymentStatusDb,
}
use anon_ticket.Env.{Env, World, counter}
use anon_ticket.Ledger.Soundness.{IsSound}
use anon_ticket.Storage.{supported, claim_payment}
use anon_ticket.Storage.Moves.{tables_of}
use anon_ticket.Storage.Runs.{>>=-of_ok}
use anon_ticket.Api.Http.{storage, hint_of, bloom_hint}
use anon_ticket.Api.Redeem.{check_bloom, after_claim, redeem_pid, redeem_parsed, redeem_handler}
use anon_ticket.Api.RedeemBranches.{
  HasNoCollision, redeemed, token_absent, answer_unclaimed, answer_claimed,
}

module _ (env : Env) (codec : IsCodec env.codec) (engine : IsEngine env.engine)
    (reliable : IsReliable env.engine) (pid : PaymentId) (valid : IsPid pid)
    (p : PaymentModel) where
  -- A hint that is no refusal lets the request pass, and leaves the database alone.
  pub passes :
      (w : World env)
      → hint_of env pid w ≢ some false
      → ((check_bloom env (hint_of env pid w) w).0 ≡ ok tt)
        × ((check_bloom env (hint_of env pid w) w).1.db ≡ w.db)
  unfolding check_bloom counter
  passes w fits = check (hint_of env pid w) fits
    where
      check :
          (o : Option Bool)
          → o ≢ some false
          → ((check_bloom env o w).0 ≡ ok tt) × ((check_bloom env o w).1.db ≡ w.db)
      check none fits = (refl, refl)
      check (some true) fits = (refl, refl)
      check (some false) fits = absurd (fits refl)

  -- The handler after a hint that lets the request pass.
  pub redeem_passes :
      (text : Bytes) (w : World env)
      → parse_pid env.codec text ≡ ok pid
      → hint_of env pid w ≢ some false
      → redeem_handler env text w
        ≡ (lift_err storage (claim_payment env pid)
              >>= after_claim env pid (unwrap_or (hint_of env pid w) false))
            (check_bloom env (hint_of env pid w) w).1
  unfolding redeem_handler redeem_parsed redeem_pid bloom_hint
  redeem_passes text w parsed fits =
      ap (λ r. redeem_parsed env r w) parsed
      ∙ >>=-of_ok (check_bloom env (hint_of env pid w))
          (λ _.
            lift_err storage (claim_payment env pid)
            >>= after_claim env pid (unwrap_or (hint_of env pid w) false))
          w tt (passes w fits).0

-- On a sound ledger, while no statement fails, over a backend that can return the row of an update and
-- where the hash has no collision, a stored and unclaimed payment that the Bloom filter does not deny is
-- redeemed: the client gets the token derived from the payment, worth its amount.
pub redeem_handler-unclaimed :
    (env : Env) (codec : IsCodec env.codec) (engine : IsEngine env.engine)
    (reliable : IsReliable env.engine) (text : Bytes) (pid : PaymentId) (p : PaymentModel)
    (w : World env)
    → parse_pid env.codec text ≡ ok pid
    → hint_of env pid w ≢ some false
    → supported (env.engine.backend w.db) ≡ ok tt
    → IsSound env.codec (tables_of env w)
    → HasNoCollision env.codec (tables_of env w)
    → find payment_key pid.bytes (tables_of env w).payments ≡ some p
    → p.status ≡ PaymentStatusDb.unclaimed
    → (redeem_handler env text w).0 ≡ ok (redeemed env (codes "success") pid p)
redeem_handler-unclaimed env codec engine reliable text pid p w parsed fits usable sound distinct
      found free =
    let valid = parse_pid-IsPid env.codec codec text pid parsed in
    let same = (passes env codec engine reliable pid valid p w fits).1 in
    let w' = (check_bloom env (hint_of env pid w) w).1 in
    ap (λ x. x.0) (redeem_passes env codec engine reliable pid valid p text w parsed fits)
    ∙ answer_unclaimed env codec engine reliable pid valid p _ w'
        (ap (λ d. supported (env.engine.backend d)) same ∙ usable)
        (ap (λ d. find payment_key pid.bytes (env.engine.tables d).payments) same ∙ found) free
        (ap
            (λ d.
              find token_key (derive_service_token env.codec pid p.txid).bytes
                (env.engine.tables d).tokens)
            same
          ∙ token_absent env.codec (tables_of env w) sound distinct pid p found free)

-- On a sound ledger, while no statement fails, over a backend that can return the row of an update and
-- where the hash has no collision, redeeming a claimed payment again, which the Bloom filter does not
-- deny, gives the same token and amount, also where the first redemption was cut off before it stored
-- the token.
pub redeem_handler-claimed :
    (env : Env) (codec : IsCodec env.codec) (engine : IsEngine env.engine)
    (reliable : IsReliable env.engine) (text : Bytes) (pid : PaymentId) (p : PaymentModel)
    (w : World env)
    → parse_pid env.codec text ≡ ok pid
    → hint_of env pid w ≢ some false
    → supported (env.engine.backend w.db) ≡ ok tt
    → IsSound env.codec (tables_of env w)
    → HasNoCollision env.codec (tables_of env w)
    → find payment_key pid.bytes (tables_of env w).payments ≡ some p
    → p.status ≡ PaymentStatusDb.claimed
    → (redeem_handler env text w).0 ≡ ok (redeemed env (codes "already_claimed") pid p)
redeem_handler-claimed env codec engine reliable text pid p w parsed fits usable sound distinct
      found taken =
    let valid = parse_pid-IsPid env.codec codec text pid parsed in
    let same = (passes env codec engine reliable pid valid p w fits).1 in
    let w' = (check_bloom env (hint_of env pid w) w).1 in
    let back : tables_of env w ≡ tables_of env w' = ap (λ d. env.engine.tables d) (sym same) in
    ap (λ x. x.0) (redeem_passes env codec engine reliable pid valid p text w parsed fits)
    ∙ answer_claimed env codec engine reliable pid valid p _ w'
        (ap (λ d. supported (env.engine.backend d)) same ∙ usable)
        (subst (IsSound env.codec) back sound) (subst (HasNoCollision env.codec) back distinct)
        (ap (λ d. find payment_key pid.bytes (env.engine.tables d).payments) same ∙ found) taken
