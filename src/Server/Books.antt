-- ===== src/Server/Books.antt =====
-- An abstract view of the ledger: to each user a book, the user's accounts with what was recorded on
-- each. It forgets the two tables, their sequences and every other user.
pub mod Lines
pub mod Refined
use mathlib.Core.List.{Memᴰ}
use maroon_ledger.Base.{
  ℕ, zero, suc, ◌+◌, ◌-◌, ◌*◌, ◌/◌, ◌%◌, ◌^◌, ◌≤◌, ◌<◌, String, ◌≡◌, refl, sym, ap, ◌∙◌, ◌≢◌, ◌↔◌,
  ◌⊎◌, inl, inr, Bool, true, false, not, ◌&&◌, ◌||◌, Option, none, some, List, [], ◌∷◌, ◌++◌, map,
  append-nil, append_assoc, arith, ltb, leb, ◌==◌, if◌then◌else◌, Bool-cases, Option-cases, is_some,
  length, length-append, All, All-append,
}
use maroon_ledger.Base.Int.{pos}
use maroon_ledger.Go.Bytes.{Bytes, bytes_eq}
use maroon_ledger.Ai.Category.{is_category}
use maroon_ledger.Database.{AccountRow, TransactionRow, Db}
use maroon_ledger.Database.Insert.{account_row_ok}
use maroon_ledger.Database.Select.{where_rows, is_id}

-- One account of a book.
pub record Sheet : Type 0 where
  pub account : AccountRow
  pub lines : List TransactionRow

abbrev pub Book : Type 0
Book = List Sheet

-- A transaction is entered on the sheet of its account, behind the others.
abbrev pub entered : TransactionRow → Sheet → Sheet
entered t s = record s {
  lines = (if s.account.id == t.account_id then s.lines ++ t ∷ [] else s.lines);
}

abbrev pub enter : TransactionRow → Book → Book
enter t book = map (entered t) book

-- What may happen to the book of a user: nothing; a new sheet, of an account of the user's own with
-- a number that no sheet has; or a line, of a category of the allowlist, on a sheet that is there.
pub data BookStep (user : Bytes) (before after : Book) : Type 0 where
  rests : after ≡ before → BookStep user before after
  opens :
      (a : AccountRow)
      → a.user_id ≡ user
      → account_row_ok a ≡ true
      → All (λ s. s.account.id ≢ a.id) before
      → after ≡ before ++ record { account = a; lines = [] } ∷ []
      → BookStep user before after
  enters :
      (t : TransactionRow) (s : Sheet)
      → Memᴰ s before
      → s.account.id ≡ t.account_id
      → is_category t.category ≡ true
      → after ≡ enter t before
      → BookStep user before after

-- The lines of the account of a number.
abbrev pub lines_of : ℕ → List TransactionRow → List TransactionRow
lines_of n ts = where_rows (λ t. is_id (pos n) t.account_id) ts

abbrev pub sheet_of : List TransactionRow → AccountRow → Sheet
sheet_of ts a = record { account = a; lines = lines_of a.id ts }

-- The book of a user in a database.
abbrev pub book_in : Bytes → List AccountRow → List TransactionRow → Book
book_in u accounts ts = map (sheet_of ts) (where_rows (λ a. bytes_eq a.user_id u) accounts)

abbrev pub book_of : Bytes → Db → Book
book_of u db = book_in u db.accounts db.transactions
