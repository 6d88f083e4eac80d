-- ===== src/Tests/Service.antt =====
-- The server at concrete requests: Alice, with a token, opens an account and records a lunch.
use maroon_ledger.Base.{◌+◌, ℕ, ◌*◌, refl, true, none, some, [], ◌∷◌, arith}
use maroon_ledger.Go.Bytes.{Bytes, bytes, bytes_eq, valid_utf8}
use maroon_ledger.Go.Time.{day_nanos}
use maroon_ledger.Auth.Verifier.{authenticate, text_claim, claim}
use maroon_ledger.Database.Insert.{account_row_ok, is_text, char_count, is_account_type}
use maroon_ledger.Handlers.Http.{Request, caller, number, string}
use maroon_ledger.Handlers.Accounts as Accounts
use maroon_ledger.Handlers.Accounts.Open.{OpenSpec, create-OpenSpec}
use maroon_ledger.Ratelimit.{new}
use maroon_ledger.Server.{Services, State, serve, record_transaction, open_account}
use maroon_ledger.Server.Change.{ServeSpec, serve-ServeSpec}
use maroon_ledger.Server.Change.Ledger.{IsLedger, serve_all, serve_all-IsLedger}
use maroon_ledger.Server.Change.Isolation.{SameView, NotAs, serve-SameView}
use maroon_ledger.Tests.Fixtures.{Money, money, dollars, ascii, lunch, quiet}
use maroon_ledger.Tests.Requests.{stub}
use maroon_ledger.Tests.Tokens.{pool, parser, alice_accepted}
use maroon_ledger.Tests.Providers.{two_tokens}

abbrev pub services : Services Money ℕ
services = record {
  unicode = ascii;
  provider = stub;
  emitting = true;
  issuer = pool;
  parser = parser;
  inference_budget = two_tokens;
  write_budget = two_tokens;
}

abbrev pub idle_server : State Money ℕ
idle_server = record { world = quiet; inference = new; writes = new }

abbrev pub header : Bytes
header = bytes "bearer pool"

abbrev pub early_lunch : Request Money
early_lunch = record lunch { claims = none; now = 719528 * day_nanos + 990 * 1000000000 }

abbrev pub savings : Request Money
savings = record lunch {
  body = record {
    size = 50;
    fields = some (
        (bytes "name", string (bytes "Rainy day"))
        ∷ (bytes "type", string (bytes "savings"))
        ∷ (bytes "balance", number (some (dollars 300)))
        ∷ []);
  };
}

create-OpenSpec_example : OpenSpec (caller savings) quiet (Accounts.create ascii savings quiet)
create-OpenSpec_example = create-OpenSpec ascii savings quiet

serve-ServeSpec_example :
    ServeSpec services header early_lunch idle_server
      (serve services record_transaction header early_lunch idle_server)
serve-ServeSpec_example = serve-ServeSpec services record_transaction header early_lunch idle_server

pub quiet-IsLedger : IsLedger quiet
unfolding account_row_ok is_text valid_utf8 char_count is_account_type bytes bytes_eq
quiet-IsLedger = record {
  accounts_valid = (refl, tt);
  transactions_valid = tt;
  numbers_differ = (tt, tt);
  numbers_used = (omega arith, tt);
  events_stored = tt;
}

serve_all-IsLedger_example :
    IsLedger
      (serve_all services
        ((record_transaction, header, early_lunch) ∷ (open_account, header, savings) ∷ [])
        idle_server).world
serve_all-IsLedger_example =
    serve_all-IsLedger services
      ((record_transaction, header, early_lunch) ∷ (open_account, header, savings) ∷ []) idle_server
      quiet-IsLedger

alice-not_bob : NotAs (bytes "bob") (authenticate ascii pool parser 990 header)
unfolding text_claim claim bytes bytes_eq
alice-not_bob = rw alice_accepted (λ e. cc)

serve-SameView_example :
    SameView
      (bytes "bob")
      quiet.db
      (serve services record_transaction header early_lunch idle_server).1.world.db
serve-SameView_example =
    serve-SameView services (bytes "bob") record_transaction header early_lunch idle_server
      quiet-IsLedger alice-not_bob
