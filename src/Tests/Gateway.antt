-- ===== src/Tests/Gateway.antt =====
-- The whole handler and the books at concrete requests.
use maroon_ledger.Base.{if◌then◌else◌, ◌&&◌, arith, ℕ, ◌≡◌, ◌⊎◌, refl, true, none, [], ◌∷◌}
use maroon_ledger.Base.Int.{pos_part, neg_part, pos, negsuc}
use maroon_ledger.Go.Bytes.{Bytes, bytes, bytes_eq, join}
use maroon_ledger.Go.Http.{sent_status}
use maroon_ledger.Auth.Verifier.{authenticate, text_claim, claim}
use maroon_ledger.Database.{AccountRow, TransactionRow, Db}
use maroon_ledger.Database.Select.{
  sum_by, scoped, join_accounts, cashflow_sums, outflow_by_category,
}
use maroon_ledger.Database.Select.Totals.{Differ, own_number, counts, amount_in, totals_counted}
use maroon_ledger.Database.Select.{where_rows}
use maroon_ledger.Handlers.World.Rules.{Same}
use maroon_ledger.Server.{State, record_transaction, get_summary, serve, seconds}
use maroon_ledger.Server.Confidential.Answers.{AlikeAs, serve-confidential}
use maroon_ledger.Server.Mux.{Segments}
use maroon_ledger.Server.Handle.{Incoming, handle}
use maroon_ledger.Server.Handle.Secured.{IsSound, handle-IsSound}
use maroon_ledger.Server.Handle.Guarded.{IsWrite, handle-guards}
use maroon_ledger.Server.Books.Refined.{BooksSpec, IsShown, serve-BooksSpec}
use maroon_ledger.Tests.Fixtures.{Money, money, ascii, alice, checking, quiet}
use maroon_ledger.Tests.Tokens.{pool, parser, alice_accepted}
use maroon_ledger.Tests.Service.{services, idle_server, header, early_lunch, quiet-IsLedger}

-- The lunch, as it arrives.
abbrev posted : Incoming Money
posted = record {
  method = bytes "POST";
  path = bytes "api" ∷ bytes "accounts" ∷ bytes "7" ∷ bytes "transactions" ∷ [];
  authorization = header;
  request = early_lunch;
}

handle-IsSound_example :
    IsSound (handle services true posted idle_server).0
    × ((handle services true posted idle_server).1 ≡ record {
      method = posted.method;
      path = b'/' ∷ join posted.path (bytes "/");
      status = sent_status (handle services true posted idle_server).0;
    })
handle-IsSound_example = handle-IsSound services true posted idle_server

handle-guards_example :
    (Same idle_server.world (handle services true posted idle_server).2.world
      ⊎ IsWrite services posted idle_server (handle services true posted idle_server).2)
    × (authenticate services.unicode services.issuer services.parser
            (seconds posted.request.now)
            posted.authorization
          ≡ none
        → ((handle services true posted idle_server).2 ≡ idle_server)
          × ((b : Bytes) (rest : Segments)
              → posted.path ≡ bytes "api" ∷ b ∷ rest
              → (handle services true posted idle_server).0.codes ≡ 401 ∷ []))
handle-guards_example = handle-guards services true posted idle_server

serve-BooksSpec_example :
    BooksSpec
      (authenticate services.unicode services.issuer services.parser
        (seconds early_lunch.now)
        header)
      quiet.db
      (serve services record_transaction header early_lunch idle_server).1.world.db
    × ((user : Bytes)
        → IsShown
            (serve services record_transaction header early_lunch idle_server).1.world.db
            user)
serve-BooksSpec_example =
    serve-BooksSpec services record_transaction header early_lunch idle_server quiet-IsLedger

abbrev of_bob : AccountRow
of_bob = record checking { id = 8; balance = pos 99; user_id = bytes "bob" }

abbrev rent : TransactionRow
rent = record {
  id = 1;
  account_id = 8;
  amount = negsuc 89999;
  category = bytes "rent";
  description = bytes "Rent";
  date = 0;
  created_at = 0;
  auto_categorized = true;
  anomaly_severity = none;
  anomaly_reason = none;
  ai_provider = none;
}

-- The server, had Bob an account as well, and paid his rent from it.
abbrev shared : State Money ℕ
shared = record idle_server {
  world = record quiet {
    db = record {
      accounts = checking ∷ of_bob ∷ [];
      transactions = rent ∷ [];
      next_account = 9;
      next_transaction = 2;
    };
  };
}

alike_to_alice : AlikeAs (authenticate ascii pool parser 990 header) idle_server shared
unfolding text_claim claim where_rows own_number bytes bytes_eq
alike_to_alice = rw alice_accepted (record { accounts = refl; transactions = refl }, refl)

serve-confidential_example :
    (serve services get_summary header early_lunch shared).0
    ≡ (serve services get_summary header early_lunch idle_server).0
serve-confidential_example =
    serve-confidential services get_summary header early_lunch idle_server shared refl refl
      alike_to_alice

-- Bob's books of a day: his rent, and a refund.
abbrev refund : TransactionRow
refund = record rent { id = 2; amount = pos 12000 }

abbrev booked : Db
booked = record shared.world.db { transactions = rent ∷ refund ∷ [] }

booked-Differ : Differ booked.accounts
booked-Differ = ((λ e. omega (arith, e), tt), (tt, tt))

totals_counted_example :
    (cashflow_sums (bytes "bob") 0 1 booked ≡ (
      sum_by
          (λ t. if counts (bytes "bob") 0 1 booked.accounts t then pos_part t.amount else 0)
          booked.transactions,
      sum_by
          (λ t. if counts (bytes "bob") 0 1 booked.accounts t then neg_part t.amount else 0)
          booked.transactions,
    ))
    × ((k : Bytes)
        → amount_in k (outflow_by_category (bytes "bob") 0 1 booked)
          ≡ sum_by
              (λ t.
                if counts (bytes "bob") 0 1 booked.accounts t && bytes_eq t.category k
                then neg_part t.amount
                else 0)
              booked.transactions)
totals_counted_example = totals_counted (bytes "bob") 0 1 booked booked-Differ

-- Alice has none of it.
nothing_of_bobs :
    (cashflow_sums alice 0 1 booked ≡ (0, 0))
    × (cashflow_sums (bytes "bob") 0 1 booked ≡ (12000, 90000))
unfolding cashflow_sums sum_by where_rows scoped join_accounts bytes bytes_eq
nothing_of_bobs = (refl, refl)
