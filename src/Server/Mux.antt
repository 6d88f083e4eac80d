-- ===== src/Server/Mux.antt =====
-- The two muxes of app/cmd/server/main.go: which handler a method and a path reach. A pattern for
-- GET takes HEAD too; a wildcard takes one segment that is not empty.
pub mod Paths
use maroon_ledger.Base.{
  ℕ, zero, suc, ◌+◌, ◌-◌, ◌*◌, ◌/◌, ◌%◌, ◌^◌, ◌≤◌, ◌<◌, String, ◌≡◌, refl, sym, ap, ◌∙◌, ◌≢◌, ◌↔◌,
  ◌⊎◌, inl, inr, Bool, true, false, not, ◌&&◌, ◌||◌, Option, none, some, List, [], ◌∷◌, ◌++◌, map,
  append-nil, append_assoc, arith, ltb, leb, ◌==◌, if◌then◌else◌, Bool-cases, Option-cases, is_some,
  length, length-append, All, All-append,
}
use maroon_ledger.Go.Bytes.{Bytes, bytes, bytes_eq, is_empty}
use maroon_ledger.Server.{
  Route, get_me, get_summary, list_accounts, get_account, open_account, list_transactions,
  record_transaction, get_insights,
}

-- A path is its segments: what stands behind each slash, unescaped. Paths that a mux would clean
-- first, with a redirect, are not considered.
abbrev pub Segments : Type 0
Segments = List Bytes

-- What the patterns of the API name, whatever the method.
pub data Resource : Type 0 where
  me summary accounts insights : Resource
  account transactions : Bytes → Resource

abbrev one_segment : Bytes → Option Resource
one_segment a =
    if bytes_eq a (bytes "me")
    then some me
    else if bytes_eq a (bytes "summary")
    then some summary
    else if bytes_eq a (bytes "accounts")
    then some accounts
    else if bytes_eq a (bytes "insights")
    then some insights
    else none

-- The resource behind `/api/`.
unfoldable pub resource_of : Segments → Option Resource
resource_of [] = none
resource_of (a ∷ []) = one_segment a
resource_of (a ∷ id ∷ []) =
    if bytes_eq a (bytes "accounts") && not (is_empty id) then some (account id) else none
resource_of (a ∷ id ∷ b ∷ []) =
    if bytes_eq a (bytes "accounts") && (not (is_empty id) && bytes_eq b (bytes "transactions"))
    then some (transactions id)
    else none
resource_of (a ∷ id ∷ b ∷ c ∷ rest) = none

-- What a mux makes of a request: a route with the path's value, another method wanted (those that
-- Allow names), or nothing.
pub data Match : Type 0 where
  found : Route → Bytes → Match
  wrong_method : Bytes → Match
  not_found : Match

unfoldable pub is_get : Bytes → Bool
is_get m = bytes_eq m (bytes "GET") || bytes_eq m (bytes "HEAD")

abbrev read_only : Bytes → Route → Bytes → Match
read_only m route value = if is_get m then found route value else wrong_method (bytes "GET, HEAD")

abbrev read_or_post : Bytes → Route → Route → Bytes → Match
read_or_post m reads posts value =
    if is_get m
    then found reads value
    else if bytes_eq m (bytes "POST")
    then found posts value
    else wrong_method (bytes "GET, HEAD, POST")

unfoldable pub match_resource : Bytes → Option Resource → Match
match_resource m none = not_found
match_resource m (some me) = read_only m get_me []
match_resource m (some summary) = read_only m get_summary []
match_resource m (some insights) = read_only m get_insights []
match_resource m (some accounts) = read_or_post m list_accounts open_account []
match_resource m (some (account id)) = read_only m get_account id
match_resource m (some (transactions id)) = read_or_post m list_transactions record_transaction id

-- What the outer mux makes of a request: the health check, the API behind the verifier, or an answer
-- of its own.
pub data Target : Type 0 where
  health : Target
  api : Segments → Target
  to_api no_such_path get_health : Target

abbrev lone : Bytes → Bytes → Target
lone m a =
    if bytes_eq a (bytes "health")
    then (if is_get m then health else get_health)
    else if bytes_eq a (bytes "api")
    then to_api
    else no_such_path

unfoldable pub target_of : Bytes → Segments → Target
target_of m [] = no_such_path
target_of m (a ∷ []) = lone m a
target_of m (a ∷ b ∷ rest) = if bytes_eq a (bytes "api") then api (b ∷ rest) else no_such_path
