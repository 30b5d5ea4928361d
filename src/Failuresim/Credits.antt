-- ===== src/Failuresim/Credits.antt =====
-- internal/failuresim/operations.go: what the credits to a customer share, and `Deposit`.
use payment_platform.Common.{
  ℕ, String, str_eq, ◌||◌, List, [], ◌∷◌, Result, ok, err, ◌>>=◌, lift, if◌then◌else◌,
}
use payment_platform.Common.Bytes.{utf8}
use payment_platform.Common.Dict.{modify}
use payment_platform.Ledger.Amount.{
  Amount, add, is_not_positive, invalid_posting, to_string, debit, credit,
}
use payment_platform.Failuresim.Types.{
  Error, ledger_error, Receipt, JournalLine, user_account, funding_account,
  authority_issuer_account,
}
use payment_platform.Failuresim.Hashing.{Primitives, request_fingerprint}
use payment_platform.Failuresim.Book.{Book, post_locked}
use payment_platform.Failuresim.World.{World, done, refused, Reply, RegionState, regional_account}
use payment_platform.Failuresim.Effects.{remember, once, as_writer, replay_key, add_outbox}
use payment_platform.Failuresim.Payments.{set_rights}
use Prim.Native.String

-- A pair of lines from one account to another and a pair that gives authority to a region.
abbrev pub credit_lines : World → String → String → String → String → Amount → List JournalLine
credit_lines w from to authority region amount =
    record { account = from; asset = w.asset; side = debit; amount = amount }
    ∷ record { account = to; asset = w.asset; side = credit; amount = amount }
    ∷ record { account = authority; asset = w.authority_asset; side = debit; amount = amount }
    ∷ record {
      account = regional_account region;
      asset = w.authority_asset;
      side = credit;
      amount = amount;
    }
    ∷ []

-- The region's rights and the authority after the credit.
unfoldable pub credit_plan : Amount → RegionState → World → Result Error (Amount × Amount)
credit_plan amount state w = do
  rights ← lift ledger_error (add state.rights amount)
  authority ← lift ledger_error (add w.authority_total amount)
  ok (rights, authority)

-- The books of a first commit: the region's rights, the authority and what `also` writes.
unfoldable pub credit_apply :
    String → String → String → Amount × Amount → (World → World) → Book → Receipt → World → World
credit_apply region kind payload (rights, authority) also book receipt w =
    if receipt.duplicate
    then record w { book = book }
    else add_outbox receipt kind region region (utf8 payload) (
        also (record w {
          book = book;
          regions = modify region (set_rights rights) w.regions;
          authority_total = authority;
        }))

unfoldable pub credit_finish : String → ℕ → Receipt → World → Reply
credit_finish key fingerprint receipt w =
    let answer : Receipt = record receipt { idempotency_key = key } in
    (remember key fingerprint answer w, done answer)

-- A credit as `postLocked` and the outbox see it.
pub record Credit : Type 0 where
  pub region : String
  pub key : String
  pub effect_id : String
  pub kind : String
  pub fingerprint : ℕ
  pub amount : Amount
  pub lines : List JournalLine
  pub message_kind : String
  pub payload : String

module _ (prim : Primitives) where
  unfoldable pub credit_post : Credit → (World → World) → Amount × Amount → World → Reply
  credit_post c also plan w =
      elim (post_locked prim c.effect_id c.kind c.fingerprint c.lines w.book) [
        | err e ↦ (w, refused e)
        | ok (book, receipt) ↦
            credit_finish c.key c.fingerprint receipt
              (credit_apply c.region c.message_kind c.payload plan also book receipt w)
      ]

  unfoldable pub credit_fresh : Credit → (World → World) → RegionState → World → Reply
  credit_fresh c also state w = elim (credit_plan c.amount state w) [
    | err e ↦ (w, refused e)
    | ok plan ↦ credit_post c also plan w
  ]

  abbrev pub deposit_credit : String → String → String → Amount → World → Credit
  deposit_credit region key operation amount w = record {
    region = region;
    key = key;
    effect_id = String.◌++◌ "deposit:" operation;
    kind = "DEPOSIT";
    fingerprint = request_fingerprint prim ("DEPOSIT" ∷ operation ∷ to_string amount ∷ []);
    amount = amount;
    lines = credit_lines w funding_account user_account authority_issuer_account region amount;
    message_kind = "DEPOSIT_CONFIRMED";
    payload = String.◌++◌ "deposit:" operation;
  }

  unfoldable pub deposit_body : Credit → String → RegionState → World → Reply
  deposit_body c operation state w =
      if str_eq c.key "" || (str_eq operation "" || is_not_positive c.amount)
      then (w, refused (ledger_error invalid_posting))
      else once c.effect_id c.fingerprint c.key (replay_key c.fingerprint)
          (credit_fresh c (λ v. v) state) w

  unfoldable pub deposit : String → String → String → Amount → World → Reply
  deposit region key operation amount w =
      as_writer region (deposit_body (deposit_credit region key operation amount w) operation) w
