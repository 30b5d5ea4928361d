-- ===== src/Transfer/Tests.antt =====
-- Runs of internal/transfer at concrete inputs: a transfer between two books.
use payment_platform.Common.{ℕ, String, pos, some, Option, List, [], ◌∷◌, ◌≡◌, refl, ok, All, arith}
use payment_platform.Common.Bytes.{utf8}
use payment_platform.Ledger.Amount.{fits_decimal38}
use payment_platform.Ledger.Posting.{validate, valid_id, canonical_json}
use payment_platform.Transfer.Legs.{
  Request, Party, LegPlan, Settlement, bounded_id, validate_request, check_parties,
  settlement_account, payer_leg, payee_leg, plan_legs, plan_transfer, post_request,
}
use payment_platform.Transfer.Plans.{IsTransfer, plan_transfer-IsTransfer}
use payment_platform.Transfer.Postings.{plan_transfer-All}

abbrev sample_request : Request
sample_request = record {
  transfer_id = "t1";
  idempotency_scope = "scope";
  idempotency_key = "key";
  principal_id = "p1";
  asset_id = "EUR";
  payer_account_id = "alice";
  payee_account_id = "bob";
  amount_atoms = pos 30;
  memo = "rent";
}

abbrev alice : Party
alice = record { account_id = "alice"; book_id = "east"; asset_id = "EUR"; status = "ACTIVE" }

abbrev bob : Party
bob = record { account_id = "bob"; book_id = "west"; asset_id = "EUR"; status = "ACTIVE" }

abbrev registry : List Settlement
registry =
    record { book_id = "east"; asset_id = "EUR"; account_id = "east-settlement" }
    ∷ record { book_id = "west"; asset_id = "EUR"; account_id = "west-settlement" }
    ∷ []

abbrev any_json : List ℕ → Option (List ℕ)
any_json bytes = some bytes

abbrev no_members : List (String × String) → List ℕ
no_members members = []

abbrev planned : List LegPlan
planned =
    payer_leg sample_request alice "east-settlement" "tx1" []
    ∷ payee_leg sample_request bob "west-settlement" "tx2" []
    ∷ []

plan_transfer-IsTransfer_example : IsTransfer (pos 30) "alice" "bob" planned
unfolding plan_transfer validate_request bounded_id check_parties plan_legs settlement_account utf8
plan_transfer-IsTransfer_example =
    plan_transfer-IsTransfer no_members registry sample_request alice bob "tx1" "tx2"
      (refl, (refl, tt)) (refl, (refl, tt)) refl

plan_transfer-All_example :
    All (λ l. validate any_json (post_request sample_request "v1" 5 l) ≡ ok tt) planned
unfolding plan_transfer validate_request bounded_id check_parties plan_legs settlement_account utf8
    canonical_json valid_id fits_decimal38
plan_transfer-All_example =
    plan_transfer-All any_json no_members (λ members. refl) registry (refl, (refl, tt))
      sample_request alice bob "tx1" "tx2" "v1" 5
      (record {
        payer_account = refl;
        payee_account = refl;
        payer_book = refl;
        payee_book = refl;
        payer_id = refl;
        payee_id = refl;
        fits = refl;
        effects = omega arith;
      })
      refl refl
