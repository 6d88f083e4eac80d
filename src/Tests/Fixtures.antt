-- ===== src/Tests/Fixtures.antt =====
-- Concrete parameters: floats that are whole cents or NaN, ASCII text, a database and requests.
use maroon_ledger.Base.{
  ℕ, suc, ◌+◌, ◌-◌, ◌*◌, ◌/◌, ◌^◌, Bool, true, false, not, ◌&&◌, Option, none, some, [], ◌∷◌,
  if◌then◌else◌,
}
use maroon_ledger.Base.Int.{ℤ, pos, negsuc, pos_part, neg_part, ltb_ℤ, ◌+ℤ◌, ◌-ℤ◌, ◌*ℤ◌}
use maroon_ledger.Go.Bytes.{Bytes, bytes, Unicode}
use maroon_ledger.Go.Float.{Float64}
use maroon_ledger.Go.Strconv.{itoa}
use maroon_ledger.Auth.Claims.{Claims}
use maroon_ledger.Database.{AccountRow, Db}
use maroon_ledger.Handlers.World.{World}
use maroon_ledger.Handlers.Http.{Request, number, string}

pub data Money : Type 0 where
  cents : ℤ → Money
  not_a_number : Money

-- Division towards zero; by zero it gives zero.
abbrev pub quotient : ℤ → ℤ → ℤ
quotient (pos a) (pos b) = pos (a / b)
quotient (pos a) (negsuc b) = pos 0 -ℤ pos (a / suc b)
quotient (negsuc a) (pos b) = pos 0 -ℤ pos (suc a / b)
quotient (negsuc a) (negsuc b) = pos (suc a / suc b)

abbrev lift : (ℤ → ℤ → ℤ) → Money → Money → Money
lift f (cents a) (cents b) = cents (f a b)
lift f _ _ = not_a_number

abbrev test : (ℤ → ℤ → Bool) → Money → Money → Bool
test f (cents a) (cents b) = f a b
test f _ _ = false

abbrev pub less : Money → Money → Bool
less = test ltb_ℤ

abbrev absolute : Money → Money
absolute (cents a) = cents (pos (pos_part a + neg_part a))
absolute not_a_number = not_a_number

abbrev greater : Money → Money → Money
greater a b = if less a b then b else a

abbrev whole : Money → ℤ
whole (cents a) = quotient a (pos 100)
whole not_a_number = pos 0

abbrev stored : Money → Option ℤ
stored (cents a) = some a
stored not_a_number = none

abbrev is_bad : Money → Bool
is_bad (cents a) = false
is_bad not_a_number = true

instance abbrev pub money : Float64 Money
money = record {
  decimal = λ n k. cents (quotient (n *ℤ pos 100) (pos (10 ^ k)));
  add = lift ◌+ℤ◌;
  sub = lift ◌-ℤ◌;
  mul = lift (λ a b. quotient (a *ℤ b) (pos 100));
  div = lift (λ a b. quotient (a *ℤ pos 100) b);
  abs = absolute;
  round = λ a. a;
  max = greater;
  lt = less;
  eq = test (λ a b. not (ltb_ℤ a b) && not (ltb_ℤ b a));
  is_nan = is_bad;
  is_inf = λ a. false;
  to_int = whole;
  format = λ k a. itoa (whole a);
  store_numeric = stored;
  scan_numeric = cents;
  scan_average = λ a n. cents a;
}

abbrev pub dollars : ℕ → Money
dollars n = cents (pos (n * 100))

abbrev pub minus_dollars : ℕ → Money
minus_dollars n = cents (negsuc (n * 100 - 1))

-- Texts in ASCII have no other lower case and no other space.
abbrev pub ascii : Unicode
ascii = record { lower = λ s. s; trim = λ s. s }

abbrev pub alice : Bytes
alice = bytes "alice"

abbrev pub alice_claims : Claims
alice_claims = record { subject = alice; username = alice; groups = [] }

abbrev pub checking : AccountRow
checking = record {
  id = 7;
  name = bytes "Main";
  type = bytes "checking";
  balance = pos 250000;
  created_at = 0;
  updated_at = 0;
  user_id = alice;
}

abbrev pub one_account : Db
one_account = record {
  accounts = checking ∷ [];
  transactions = [];
  next_account = 8;
  next_transaction = 1;
}

abbrev pub quiet : World Money
quiet = record { db = one_account; faults = []; emitted = [] }

abbrev pub lunch : Request Money
lunch = record {
  claims = some alice_claims;
  path_value = bytes "7";
  query_values = [];
  body = record {
    size = 40;
    fields = some (
        (bytes "amount", number (some (minus_dollars 12)))
        ∷ (bytes "description", string (bytes "Lunch at the cafe"))
        ∷ []);
  };
  now = 63876556800000000000;
}
