-- ===== src/Server/Books/Lines.antt =====
-- How the book of a user changes with the two tables.
use mathlib.Core.List.{Memᴰ}
use maroon_ledger.Base.{
  ℕ, ◌<◌, ◌≡◌, refl, ap, ◌≢◌, inl, inr, Bool, true, false, List, [], ◌∷◌, ◌++◌, map, arith, ◌==◌,
  Bool-cases, is_some, All,
}
use maroon_ledger.Base.{map-append}
use maroon_ledger.Base.Int.{pos}
use maroon_ledger.Go.Bytes.{Bytes, bytes_eq, bytes_eq_iff}
use maroon_ledger.Database.{AccountRow, TransactionRow}
use maroon_ledger.Database.Insert.{find_account}
use maroon_ledger.Database.Select.{where_rows, is_id}
use maroon_ledger.Server.Change.Foreign.{where_rows-dropped, NotTheirs}
use maroon_ledger.Server.Change.Ledger.{All-map}
use maroon_ledger.Server.Books.{Sheet, entered, enter, sheet_of, book_in}

-- A row behind the others that the condition keeps.
where_rows-kept :
    {A : Type 0} (p : A → Bool) (xs : List A) (x : A)
    → p x ≡ true
    → where_rows p (xs ++ x ∷ []) ≡ where_rows p xs ++ x ∷ []
unfolding where_rows
where_rows-kept p [] x h = ground arith
where_rows-kept p (y ∷ xs) x h = ground (arith, where_rows-kept p xs x h)

where_rows-none :
    {A : Type 0} (p : A → Bool) (xs : List A) → All (λ x. p x ≡ false) xs → where_rows p xs ≡ []
unfolding where_rows
where_rows-none p [] h = refl
where_rows-none p (x ∷ xs) h = ground (arith, where_rows-none p xs h.1)

other_number : (m n : ℕ) → m ≢ n → is_id (pos n) m ≡ false
other_number m n h = ground arith

-- A transaction is one line more on the sheet of its account, and on no other.
sheet_of-append :
    (ts : List TransactionRow) (t : TransactionRow) (a : AccountRow)
    → sheet_of (ts ++ t ∷ []) a ≡ entered t (sheet_of ts a)
sheet_of-append ts t a = elim (Bool-cases (a.id == t.account_id)) [
  | inl here ↦
      rw (here, where_rows-kept (λ u. is_id (pos a.id) u.account_id) ts t (ground arith)) refl
  | inr there ↦
      rw (there, where_rows-dropped (λ u. is_id (pos a.id) u.account_id) ts t (ground arith)) refl
]

sheets-append :
    (ts : List TransactionRow) (t : TransactionRow) (accounts : List AccountRow)
    → map (sheet_of (ts ++ t ∷ [])) accounts ≡ enter t (map (sheet_of ts) accounts)
sheets-append ts t [] = refl
sheets-append ts t (a ∷ accounts) = rw (sheet_of-append ts t a, sheets-append ts t accounts) refl

pub book_in-recorded :
    (u : Bytes) (accounts : List AccountRow) (ts : List TransactionRow) (t : TransactionRow)
    → book_in u accounts (ts ++ t ∷ []) ≡ enter t (book_in u accounts ts)
book_in-recorded u accounts ts t =
    sheets-append ts t (where_rows (λ a. bytes_eq a.user_id u) accounts)

-- On no sheet of another user.
entered-elsewhere : (t : TransactionRow) (s : Sheet) → s.account.id ≢ t.account_id → entered t s ≡ s
entered-elsewhere t s h = elim (Bool-cases (s.account.id == t.account_id)) [
  | inl e ↦ absurd (h (ground arith))
  | inr e ↦ rw e refl
]

pub enter-foreign :
    (u : Bytes) (t : TransactionRow) (ts : List TransactionRow) (accounts : List AccountRow)
    → NotTheirs u t.account_id accounts
    → enter t (book_in u accounts ts) ≡ book_in u accounts ts
unfolding where_rows
enter-foreign u t ts [] h = refl
enter-foreign u t ts (a ∷ accounts) h = elim (Bool-cases (bytes_eq a.user_id u)) [
  | inl theirs ↦
      rw
        (
          theirs,
          entered-elsewhere t (sheet_of ts a) (λ e. absurd (ground (arith, h.0 e))),
          enter-foreign u t ts accounts h.1,
        )
        refl
  | inr other ↦ rw (other, enter-foreign u t ts accounts h.1) refl
]

pub book_in-opened :
    (u : Bytes) (accounts : List AccountRow) (ts : List TransactionRow) (a : AccountRow)
    → a.user_id ≡ u
    → All (λ t. t.account_id ≢ a.id) ts
    → book_in u (accounts ++ a ∷ []) ts
      ≡ book_in u accounts ts ++ record { account = a; lines = [] } ∷ []
book_in-opened u accounts ts a own unused =
    rw
      (
        where_rows-kept (λ b. bytes_eq b.user_id u) accounts a ((bytes_eq_iff a.user_id u).1 own),
        map-append (sheet_of ts) (where_rows (λ b. bytes_eq b.user_id u) accounts) (a ∷ []),
        where_rows-none (λ t. is_id (pos a.id) t.account_id) ts
            (All-map _ _ ts (λ t h. other_number t.account_id a.id h) unused),
      )
      refl

pub book_in-opened_elsewhere :
    (u : Bytes) (accounts : List AccountRow) (ts : List TransactionRow) (a : AccountRow)
    → bytes_eq a.user_id u ≡ false
    → book_in u (accounts ++ a ∷ []) ts ≡ book_in u accounts ts
book_in-opened_elsewhere u accounts ts a other =
    rw (where_rows-dropped (λ b. bytes_eq b.user_id u) accounts a other) refl

-- The sheet of an account of the user's.
pub sheet-in_book :
    (u : Bytes) (accounts : List AccountRow) (ts : List TransactionRow) (a : AccountRow)
    → Memᴰ a accounts
    → a.user_id ≡ u
    → Memᴰ (sheet_of ts a) (book_in u accounts ts)
unfolding where_rows
sheet-in_book u [] ts a m own = elim m [ ]
sheet-in_book u (b ∷ accounts) ts a (Memᴰ.head e) own =
    let kept : bytes_eq b.user_id u ≡ true = (bytes_eq_iff b.user_id u).1 (rw (← e) own) in
    rw kept (Memᴰ.head (ap (sheet_of ts) e))
sheet-in_book u (b ∷ accounts) ts a (Memᴰ.tail m) own = elim (Bool-cases (bytes_eq b.user_id u)) [
  | inl kept ↦ rw kept (Memᴰ.tail (sheet-in_book u accounts ts a m own))
  | inr dropped ↦ rw dropped (sheet-in_book u accounts ts a m own)
]

-- What holds of all accounts holds of those in a book.
pub All-in_book :
    (P : AccountRow → Type 0) (u : Bytes) (accounts : List AccountRow) (ts : List TransactionRow)
    → All P accounts
    → All (λ (s : Sheet). P s.account) (book_in u accounts ts)
unfolding where_rows
All-in_book P u [] ts h = tt
All-in_book P u (a ∷ accounts) ts h = elim (Bool-cases (bytes_eq a.user_id u)) [
  | inl kept ↦ rw kept (h.0, All-in_book P u accounts ts h.1)
  | inr dropped ↦ rw dropped (All-in_book P u accounts ts h.1)
]

-- A transaction whose account exists has a number that was used.
pub used_number :
    (n next : ℕ) (accounts : List AccountRow)
    → is_some (find_account n accounts) ≡ true
    → All (λ a. a.id < next) accounts
    → n < next
unfolding find_account
used_number n next [] h used = cc
used_number n next (a ∷ accounts) h used = elim (Bool-cases (a.id == n)) [
  | inl here ↦ ground arith
  | inr there ↦ used_number n next accounts (ground arith) used.1
]
