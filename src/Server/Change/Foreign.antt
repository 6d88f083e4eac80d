-- ===== src/Server/Change/Foreign.antt =====
-- What another user's accounts and transactions add to the rows of a user's queries: nothing.
use mathlib.Core.Path.{subst}
use mathlib.Core.List.{Memᴰ}
use maroon_ledger.Base.{
  ℕ, ◌≡◌, refl, sym, ◌∙◌, ◌≢◌, inl, inr, Bool, false, List, [], ◌∷◌, ◌++◌, arith, ◌==◌, Bool-cases,
  All,
}
use maroon_ledger.Base.Int.{ℤ, pos_part}
use maroon_ledger.Go.Bytes.{Bytes, bytes_eq, bytes_eq_iff}
use maroon_ledger.Database.{AccountRow, TransactionRow}
use maroon_ledger.Database.Select.{Joined, where_rows, join_account, join_accounts, is_id}
use maroon_ledger.Database.Select.Rows.{where_rows-append, is_id-eq}
use maroon_ledger.Database.Select.Totals.{Differ}

pub bytes_eq-ne : (s t : Bytes) → s ≢ t → bytes_eq s t ≡ false
bytes_eq-ne s t h = elim (Bool-cases (bytes_eq s t)) [
  | inl e ↦ absurd (h ((bytes_eq_iff s t).0 e))
  | inr e ↦ e
]

-- A row behind the others that the condition does not keep.
pub where_rows-dropped :
    {A : Type 0} (p : A → Bool) (xs : List A) (x : A)
    → p x ≡ false
    → where_rows p (xs ++ x ∷ []) ≡ where_rows p xs
unfolding where_rows
where_rows-dropped p [] x h = ground arith
where_rows-dropped p (y ∷ xs) x h = ground (arith, where_rows-dropped p xs x h)

module _ (u : Bytes) where
  abbrev of_user : Joined → Bool
  of_user j = bytes_eq j.a.user_id u

  join_account-opened :
      (t : TransactionRow) (accounts : List AccountRow) (row : AccountRow)
      → bytes_eq row.user_id u ≡ false
      → where_rows of_user (join_account t (accounts ++ row ∷ []))
        ≡ where_rows of_user (join_account t accounts)
  unfolding join_account where_rows
  join_account-opened t [] row h = ground arith
  join_account-opened t (a ∷ accounts) row h = ground (arith, join_account-opened t accounts row h)

  -- An account of another user joins nothing to this user's rows.
  pub join_accounts-opened :
      (ts : List TransactionRow) (accounts : List AccountRow) (row : AccountRow)
      → bytes_eq row.user_id u ≡ false
      → where_rows of_user (join_accounts ts (accounts ++ row ∷ []))
        ≡ where_rows of_user (join_accounts ts accounts)
  unfolding join_accounts
  join_accounts-opened [] accounts row h = refl
  join_accounts-opened (t ∷ ts) accounts row h = rw (
    where_rows-append of_user (join_account t (accounts ++ row ∷ []))
        (join_accounts ts (accounts ++ row ∷ [])),
    where_rows-append of_user (join_account t accounts) (join_accounts ts accounts),
    join_account-opened t accounts row h,
    join_accounts-opened ts accounts row h,
  )

  -- No account of this number is the user's.
  abbrev pub NotTheirs : ℕ → List AccountRow → Type 0
  NotTheirs n accounts = All (λ a. a.id ≡ n → bytes_eq a.user_id u ≡ false) accounts

  join_account-foreign :
      (t : TransactionRow) (accounts : List AccountRow)
      → NotTheirs t.account_id accounts
      → where_rows of_user (join_account t accounts) ≡ []
  unfolding join_account where_rows
  join_account-foreign t [] h = refl
  join_account-foreign t (a ∷ accounts) h = elim (Bool-cases (a.id == t.account_id)) [
    | inl e ↦ ground (arith, h.0 (ground arith), join_account-foreign t accounts h.1)
    | inr e ↦ ground (arith, join_account-foreign t accounts h.1)
  ]

  -- A transaction on an account that is not the user's joins nothing to the user's rows.
  pub join_accounts-recorded :
      (ts : List TransactionRow) (t : TransactionRow) (accounts : List AccountRow)
      → NotTheirs t.account_id accounts
      → where_rows of_user (join_accounts (ts ++ t ∷ []) accounts)
        ≡ where_rows of_user (join_accounts ts accounts)
  unfolding join_accounts
  join_accounts-recorded [] t accounts h =
      rw (where_rows-append of_user (join_account t accounts) [], join_account-foreign t accounts h)
  join_accounts-recorded (s ∷ ts) t accounts h = rw (
    where_rows-append of_user (join_account s accounts) (join_accounts (ts ++ t ∷ []) accounts),
    where_rows-append of_user (join_account s accounts) (join_accounts ts accounts),
    join_accounts-recorded ts t accounts h,
  )

  All-NotTheirs :
      (n : ℕ) (accounts : List AccountRow) → All (λ a. n ≢ a.id) accounts → NotTheirs n accounts
  All-NotTheirs n [] h = tt
  All-NotTheirs n (a ∷ accounts) h = (λ e. absurd (h.0 (sym e)), All-NotTheirs n accounts h.1)

  all-at {ℓ} : {A : Type 0} (P : A → Type ℓ) (x : A) (xs : List A) → Memᴰ x xs → All P xs → P x
  all-at P x [] m h = elim m [ ]
  all-at P x (y ∷ xs) (Memᴰ.head e) h = rw e h.0
  all-at P x (y ∷ xs) (Memᴰ.tail m) h = all-at P x xs m h.1

  -- Where numbers differ, the number of another user's account is not one of this user's.
  pub owned-NotTheirs :
      (accounts : List AccountRow) (row : AccountRow)
      → Differ accounts
      → Memᴰ row accounts
      → bytes_eq row.user_id u ≡ false
      → NotTheirs row.id accounts
  owned-NotTheirs [] row d m h = elim m [ ]
  owned-NotTheirs (a ∷ accounts) row d (Memᴰ.head e) h = (
    λ same. rw (← e) h,
    All-NotTheirs row.id accounts
        (subst (λ (b : AccountRow). All (λ c. b.id ≢ c.id) accounts) (sym e) d.0),
  )
  owned-NotTheirs (a ∷ accounts) row d (Memᴰ.tail m) h = (
    λ same. absurd (all-at (λ (b : AccountRow). a.id ≢ b.id) row accounts m d.0 same),
    owned-NotTheirs accounts row d.1 m h,
  )

  pub NotTheirs-is_id :
      (id : ℤ) (n : ℕ) (accounts : List AccountRow) (row : AccountRow)
      → NotTheirs n accounts
      → Memᴰ row accounts
      → row.user_id ≡ u
      → row.id ≡ pos_part id
      → is_id id n ≡ false
  NotTheirs-is_id id n accounts row h m owner numbered = elim (Bool-cases (is_id id n)) [
    | inl e ↦
        let at =
          all-at (λ (a : AccountRow). a.id ≡ n → bytes_eq a.user_id u ≡ false) row accounts m h in
        let no : bytes_eq row.user_id u ≡ false = at (numbered ∙ sym (is_id-eq id n e)) in
        absurd (ground (arith, (bytes_eq_iff row.user_id u).1 owner))
    | inr e ↦ e
  ]
