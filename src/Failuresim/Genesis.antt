-- ===== src/Failuresim/Genesis.antt =====
-- internal/failuresim/world.go: `NewWorld`, which checks a configuration and posts its funds.
use payment_platform.Common.{
  ℕ, String, str_eq, Bool, true, false, not, ◌||◌, List, [], ◌∷◌, ◌++◌, Result, ok, ◌>>=◌, ◌>>◌,
  fail_if, lift, eqb_ℤ, pos, if◌then◌else◌,
}
use payment_platform.Common.Bytes.{utf8, big_endian, padded}
use payment_platform.Common.Dict.{Dict, insert}
use payment_platform.Ledger.Amount.{Amount, add, is_negative, is_positive, to_string, debit, credit}
use payment_platform.Failuresim.Types.{
  Error, ledger_error, invalid_configuration, JournalLine, user_account, funding_account,
  authority_issuer_account, authority_unallocated_account,
}
use payment_platform.Failuresim.Hashing.{Primitives, request_fingerprint}
use payment_platform.Failuresim.Book.{Book, post_locked}
use payment_platform.Failuresim.World.{RegionState, World, regional_account}
use payment_platform.Simulation.Network.{new_network}
use Prim.Native.String
use Prim.Native.String.{compare}
use text.Mathlib.Text.{is_lt}

pub record Config : Type 0 where
  pub asset : String
  pub initial_balance : Amount
  pub credit_limit : Amount
  pub unallocated : Amount
  pub regional_rights : Dict Amount
  pub certificate_key : List ℕ

abbrev pub started : Amount → RegionState
started rights = record { epoch = 1; running = true; rights = rights }

-- The loop over `config.RegionalRights`, in the order of the list where Go's map has none.
unfoldable pub add_rights :
    Dict Amount → Amount → Dict RegionState → Result Error (Amount × Dict RegionState)
add_rights [] total regions = ok (total, regions)
add_rights ((name, amount) ∷ rest) total regions = do
  fail_if (str_eq name "" || is_negative amount) invalid_configuration
  sum ← lift ledger_error (add total amount)
  add_rights rest sum (insert name (started amount) regions)

unfoldable pub place : String → RegionState → Dict RegionState → Dict RegionState
place name s [] = (name, s) ∷ []
place name s ((n, t) ∷ m) =
    let rest = place name s m in
    if is_lt (compare name n) then (name, s) ∷ (n, t) ∷ m else (n, t) ∷ rest

-- The regions in the order of `sortedRegionNames`.
unfoldable pub sort_regions : Dict RegionState → Dict RegionState
unfolding place
sort_regions [] = []
sort_regions ((name, s) ∷ m) = place name s (sort_regions m)

-- One line for each region that has rights.
unfoldable pub rights_lines : String → Dict RegionState → List JournalLine
rights_lines asset [] = []
rights_lines asset ((name, s) ∷ m) =
    let rest = rights_lines asset m in
    if is_positive s.rights
    then record { account = regional_account name; asset = asset; side = credit; amount = s.rights }
      ∷ rest
    else rest

abbrev pub authority_asset_of : String → String
authority_asset_of asset = String.◌++◌ "AUTHORITY/" asset

unfoldable pub balance_lines : Config → List JournalLine
balance_lines c =
    if is_positive c.initial_balance
    then record {
      account = funding_account;
      asset = c.asset;
      side = debit;
      amount = c.initial_balance;
    }
      ∷ record {
        account = user_account;
        asset = c.asset;
        side = credit;
        amount = c.initial_balance;
      }
      ∷ []
    else []

unfoldable pub reserve_lines : Config → List JournalLine
reserve_lines c =
    if is_positive c.unallocated
    then record {
      account = authority_unallocated_account;
      asset = authority_asset_of c.asset;
      side = credit;
      amount = c.unallocated;
    }
      ∷ []
    else []

unfoldable pub authority_lines : Config → Amount → Dict RegionState → List JournalLine
authority_lines c authority regions =
    if is_positive authority
    then record {
      account = authority_issuer_account;
      asset = authority_asset_of c.asset;
      side = debit;
      amount = authority;
    }
      ∷ (reserve_lines c ++ rights_lines (authority_asset_of c.asset) (sort_regions regions))
    else []

unfoldable pub genesis_lines : Config → Amount → Dict RegionState → List JournalLine
genesis_lines c authority regions = balance_lines c ++ authority_lines c authority regions

abbrev pub empty_book : Book
empty_book = record { balances = []; journal = []; effects = []; sequence = 0; head_hash = 0 }

abbrev pub is_empty {ℓ} : {A : Type ℓ} → List A → Bool
is_empty [] = true
is_empty (_ ∷ _) = false

dc_name : ℕ → String
dc_name index = String.◌++◌ "dc" (padded 2 index)

abbrev dc_names : List String
dc_names = dc_name 1 ∷ dc_name 2 ∷ dc_name 3 ∷ dc_name 4 ∷ dc_name 5 ∷ dc_name 6 ∷ dc_name 7 ∷ []

-- Twelve data centres, of which the first seven hold replicas.
abbrev other_names : List String
other_names = dc_name 8 ∷ dc_name 9 ∷ dc_name 10 ∷ dc_name 11 ∷ dc_name 12 ∷ []

abbrev all_healthy : List String → Dict Bool
all_healthy [] = []
all_healthy (name ∷ names) = (name, true) ∷ all_healthy names

abbrev pub first_regions : Dict RegionState
first_regions = ("A", started (pos 0)) ∷ ("B", started (pos 0)) ∷ ("C", started (pos 0)) ∷ []

module _ (prim : Primitives) where
  abbrev key_of : List ℕ → List ℕ
  key_of [] =
      big_endian 32
        (prim.sha256 (utf8 "payment-platform/failuresim/deterministic-certificate-key/v1"))
  key_of (byte ∷ bytes) = byte ∷ bytes

  unfoldable pub empty_world : Config → ℕ → Amount → Dict RegionState → World
  unfolding dc_name
  empty_world c seed authority regions = record {
    asset = c.asset;
    authority_asset = authority_asset_of c.asset;
    credit_limit = c.credit_limit;
    unallocated = c.unallocated;
    authority_total = authority;
    certificate_key = key_of c.certificate_key;
    regions = regions;
    book = empty_book;
    idempotency = [];
    payments = [];
    refunds = [];
    cashback_rules = [];
    cashback_paid = [];
    transfers = [];
    outbox = [];
    inbox = [];
    lose_responses = [];
    crash_before_commit = [];
    crash_after_commit = [];
    consumer_crash = [];
    coordinator_running = true;
    coordinator_crash_after = [];
    sagas = [];
    logical_tick = 0;
    fraud_verdicts = [];
    dc_healthy = all_healthy (dc_names ++ other_names);
    replicas = dc_names;
    quorum = 4;
    network = new_network seed;
  }

  unfoldable pub post_genesis : Config → List JournalLine → World → Result Error World
  post_genesis c lines w =
      if is_empty lines
      then ok w
      else post_locked prim "genesis" "GENESIS"
          (request_fingerprint prim
            ("GENESIS" ∷ c.asset ∷ to_string c.initial_balance ∷ to_string c.credit_limit ∷ []))
          lines w.book
        >>= λ posted. ok (record w { book = posted.0 })

  -- `NewWorld`: the rights of the regions and the reserve must be the balance and the credit.
  unfoldable pub new_world : Config → ℕ → Result Error World
  new_world c seed = do
    fail_if
        (str_eq c.asset ""
          || (is_negative c.initial_balance
              || (is_negative c.credit_limit || is_negative c.unallocated)))
        invalid_configuration
    authority ← lift ledger_error (add c.initial_balance c.credit_limit)
    (total, regions) ← add_rights c.regional_rights c.unallocated first_regions
    fail_if (not (eqb_ℤ total authority)) invalid_configuration
    post_genesis c (genesis_lines c authority regions) (empty_world c seed authority regions)
