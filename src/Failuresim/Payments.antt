-- ===== src/Failuresim/Payments.antt =====
-- internal/failuresim/operations.go: `Pay` and `PayWithFence`.
pub mod Retries
pub mod Refusals
use payment_platform.Common.{
  ℕ, String, str_eq, true, ◌||◌, List, [], ◌∷◌, Result, ok, err, ◌>>=◌, ◌>>◌, fail_if, lift, pos,
  ltb_ℤ, if◌then◌else◌, ◌==◌,
}
use payment_platform.Common.Bytes.{utf8}
use payment_platform.Common.Dict.{insert, modify}
use payment_platform.Ledger.Amount.{
  Amount, add, sub, is_not_positive, is_negative, invalid_posting, to_string, debit, credit,
}
use payment_platform.Failuresim.Types.{
  Error, ledger_error, idempotency_conflict, insufficient_funds, insufficient_rights,
  crash_before_commit, crash_after_commit, response_lost, Fence, Receipt, JournalLine, captured,
  user_account, merchant_account, authority_consumed_account,
}
use payment_platform.Failuresim.Hashing.{Primitives, request_fingerprint}
use payment_platform.Failuresim.Book.{Book, post_locked}
use payment_platform.Failuresim.World.{
  World, done, unheard, refused, Reply, RegionState, Payment, IdempotencyRecord, balance_of,
  regional_account, require_writer, fence_of, halt, consume_counter,
}
use payment_platform.Failuresim.Effects.{remember, once, add_outbox}
use Prim.Native.String

abbrev pub payment_effect : String → String
payment_effect operation = String.◌++◌ "payment:" operation

abbrev pub pay_lines : World → String → Amount → List JournalLine
pay_lines w region amount =
    record { account = user_account; asset = w.asset; side = debit; amount = amount }
    ∷ record { account = merchant_account; asset = w.asset; side = credit; amount = amount }
    ∷ record {
      account = regional_account region;
      asset = w.authority_asset;
      side = debit;
      amount = amount;
    }
    ∷ record {
      account = authority_consumed_account;
      asset = w.authority_asset;
      side = credit;
      amount = amount;
    }
    ∷ []

abbrev pub set_rights : Amount → RegionState → RegionState
set_rights rights s = record s { rights = rights }

-- The checks against funds and rights, and the region's rights and the authority after the payment.
unfoldable pub pay_plan : Amount → RegionState → World → Result Error (Amount × Amount)
pay_plan amount region w = do
  available ← lift ledger_error (add (balance_of user_account w) w.credit_limit)
  fail_if (ltb_ℤ available amount) insufficient_funds
  fail_if (ltb_ℤ region.rights amount) insufficient_rights
  rights ← lift ledger_error (sub region.rights amount)
  authority ← lift (λ _. insufficient_rights) (sub w.authority_total amount)
  fail_if (is_negative authority) insufficient_rights
  ok (rights, authority)

new_payment : String → String → Amount → Receipt → Payment
new_payment operation region amount receipt = record {
  operation_id = operation;
  region = region;
  authorized = amount;
  captured = amount;
  refunded = pos 0;
  reversed = pos 0;
  charged_back = pos 0;
  state = captured;
  receipt = receipt;
}

-- The state that a first commit leaves; a post that was a replay changes nothing else.
unfoldable pub pay_apply :
    String → String → Amount → Amount × Amount → Book → Receipt → World → World
unfolding new_payment
pay_apply region operation amount (rights, authority) book receipt w =
    if receipt.duplicate
    then record w { book = book }
    else add_outbox receipt "PAYMENT_CAPTURED" region region (utf8 (payment_effect operation))
        (record w {
          book = book;
          regions = modify region (set_rights rights) w.regions;
          authority_total = authority;
          payments = insert operation (new_payment operation region amount receipt) w.payments;
        })

-- Both faults armed for the key are used up; a crash outranks a lost response.
unfoldable pub pay_finish : String → String → ℕ → Receipt → World → Reply
pay_finish region key fingerprint receipt w =
    let answer : Receipt = record receipt { idempotency_key = key } in
    let w₁ : World = remember key fingerprint answer w in
    let (crashed, crashes) = consume_counter w₁.crash_after_commit key in
    let (lost, losses) = consume_counter w₁.lose_responses key in
    let w₂ : World = record w₁ { crash_after_commit = crashes; lose_responses = losses } in
    if crashed
    then (halt region w₂, unheard crash_after_commit answer)
    else (w₂, if lost then unheard response_lost answer else done answer)

module _ (prim : Primitives) where
  -- The post and what follows it.
  unfoldable pub pay_post : String → String → String → ℕ → Amount → Amount × Amount → World → Reply
  pay_post region key operation fingerprint amount plan w =
      elim (post_locked prim (payment_effect operation) "PAYMENT_CAPTURE" fingerprint
        (pay_lines w region amount) w.book) [
          | err e ↦ (w, refused e)
          | ok (book, receipt) ↦
              pay_finish region key fingerprint receipt
                (pay_apply region operation amount plan book receipt w)
        ]

  unfoldable pub pay_fresh : String → String → String → ℕ → Amount → RegionState → World → Reply
  pay_fresh region key operation fingerprint amount state w = elim (pay_plan amount state w) [
    | err e ↦ (w, refused e)
    | ok plan ↦ pay_post region key operation fingerprint amount plan w
  ]

  -- A crash armed before the commit stops the region and loses the request.
  unfoldable pub pay_new : String → String → String → ℕ → Amount → RegionState → World → Reply
  pay_new region key operation fingerprint amount state w =
      let (crashed, crashes) = consume_counter w.crash_before_commit key in
      if crashed
      then (halt region (record w { crash_before_commit = crashes }), refused crash_before_commit)
      else pay_fresh region key operation fingerprint amount state w

  -- The answer for a known key; an armed loss is used up here too.
  unfoldable pub pay_seen : String → ℕ → IdempotencyRecord → World → Reply
  pay_seen key fingerprint seen w =
      let (lost, losses) = consume_counter w.lose_responses key in
      let answer : Receipt = record (seen.receipt) { duplicate = true } in
      if seen.request_hash == fingerprint
      then (
        record w { lose_responses = losses },
        if lost then unheard response_lost answer else done answer,
      )
      else (w, refused idempotency_conflict)

  unfoldable pub pay_writer : String → String → String → Amount → RegionState → World → Reply
  pay_writer region key operation amount state w =
      let fingerprint = request_fingerprint prim ("PAYMENT" ∷ operation ∷ to_string amount ∷ []) in
      if str_eq key "" || (str_eq operation "" || is_not_positive amount)
      then (w, refused (ledger_error invalid_posting))
      else once (payment_effect operation) fingerprint key (pay_seen key fingerprint)
          (pay_new region key operation fingerprint amount state) w

  unfoldable pub pay_with_fence : Fence → String → String → Amount → World → Reply
  pay_with_fence f key operation amount w = elim (require_writer f w) [
    | err e ↦ (w, refused e)
    | ok state ↦ pay_writer f.region key operation amount state w
  ]

  unfoldable pub pay : String → String → String → Amount → World → Reply
  pay region key operation amount w = elim (fence_of region w) [
    | err e ↦ (w, refused e)
    | ok f ↦ pay_with_fence f key operation amount w
  ]
