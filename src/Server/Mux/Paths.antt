-- ===== src/Server/Mux/Paths.antt =====
-- Which paths and methods reach a route that writes.
use maroon_ledger.Base.{
  ◌≡◌, refl, ◌⊎◌, inl, inr, true, Option, none, some, [], ◌∷◌, arith, Bool-cases,
}
use maroon_ledger.Go.Bytes.{Bytes, bytes, bytes_eq_iff}
use maroon_ledger.Server.{Route}
use maroon_ledger.Server.Mux as Mux
use maroon_ledger.Server.Mux.{
  Segments, Resource, Match, found, wrong_method, not_found, match_resource, resource_of, Target,
  health, api, to_api, no_such_path, get_health, target_of, is_get,
}
use maroon_ledger.Server.Change.Reads.{reads}

-- A route that writes is reached by POST, at the accounts or at the transactions of one.
pub match_resource-writes :
    (m : Bytes) (o : Option Resource) (route : Route) (v : Bytes)
    → match_resource m o ≡ found route v
    → (reads route ≡ true)
      ⊎ ((m ≡ bytes "POST") × ((o ≡ some Mux.accounts) ⊎ (o ≡ some (Mux.transactions v))))
unfolding match_resource
match_resource-writes m none route v h = absurd (ground arith)
match_resource-writes m (some Mux.me) route v h = inl (ground arith)
match_resource-writes m (some Mux.summary) route v h = inl (ground arith)
match_resource-writes m (some Mux.insights) route v h = inl (ground arith)
match_resource-writes m (some (Mux.account id)) route v h = inl (ground arith)
match_resource-writes m (some Mux.accounts) route v h = elim (Bool-cases (is_get m)) [
  | inl get ↦ inl (ground arith)
  | inr other ↦ inr (ground (arith, bytes_eq_iff m (bytes "POST")), inl refl)
]
match_resource-writes m (some (Mux.transactions id)) route v h = elim (Bool-cases (is_get m)) [
  | inl get ↦ inl (ground arith)
  | inr other ↦ inr (ground (arith, bytes_eq_iff m (bytes "POST")), inr (ground arith))
]

pub resource_of-accounts :
    (p : Segments) → resource_of p ≡ some Mux.accounts → p ≡ bytes "accounts" ∷ []
unfolding resource_of
resource_of-accounts [] h = absurd (ground arith)
resource_of-accounts (a ∷ []) h = ground (arith, bytes_eq_iff a (bytes "accounts"))
resource_of-accounts (a ∷ id ∷ []) h = absurd (ground arith)
resource_of-accounts (a ∷ id ∷ b ∷ []) h = absurd (ground arith)
resource_of-accounts (a ∷ id ∷ b ∷ c ∷ rest) h = absurd (ground arith)

pub resource_of-transactions :
    (p : Segments) (v : Bytes)
    → resource_of p ≡ some (Mux.transactions v)
    → p ≡ bytes "accounts" ∷ v ∷ bytes "transactions" ∷ []
unfolding resource_of
resource_of-transactions [] v h = absurd (ground arith)
resource_of-transactions (a ∷ []) v h = absurd (ground arith)
resource_of-transactions (a ∷ id ∷ []) v h = absurd (ground arith)
resource_of-transactions (a ∷ id ∷ b ∷ []) v h =
    ground (arith, bytes_eq_iff a (bytes "accounts"), bytes_eq_iff b (bytes "transactions"))
resource_of-transactions (a ∷ id ∷ b ∷ c ∷ rest) v h = absurd (ground arith)

pub target_of-api :
    (m : Bytes) (p segments : Segments) → target_of m p ≡ api segments → p ≡ bytes "api" ∷ segments
unfolding target_of
target_of-api m [] segments h = absurd (ground arith)
target_of-api m (a ∷ []) segments h = absurd (ground arith)
target_of-api m (a ∷ b ∷ rest) segments h = ground (arith, bytes_eq_iff a (bytes "api"))
