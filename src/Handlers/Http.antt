-- ===== src/Handlers/Http.antt =====
-- app/internal/handlers/handlers.go: the identity behind a request, strict decoding of its body,
-- and the ownership query. A response is a status with a body, or an error's status and message.
pub mod Decode
use maroon_ledger.Base.{
  ℕ, zero, suc, ◌+◌, ◌-◌, ◌*◌, ◌/◌, ◌%◌, ◌^◌, ◌≤◌, ◌<◌, String, ◌≡◌, refl, sym, ap, ◌∙◌, ◌≢◌, ◌↔◌,
  ◌⊎◌, inl, inr, Bool, true, false, not, ◌&&◌, ◌||◌, Option, none, some, List, [], ◌∷◌, ◌++◌, map,
  arith, ltb, leb, ◌==◌, if◌then◌else◌, Bool-cases, Option-cases, is_some, length,
}
use maroon_ledger.Base.Int.{ℤ}
use maroon_ledger.Go.Bytes.{Bytes, bytes, bytes_eq, is_empty, equal_fold}
use maroon_ledger.Auth.Claims.{Claims}
use maroon_ledger.Database.{AccountRow, Db}
use maroon_ledger.Database.Select.{account_by}
use maroon_ledger.Handlers.World.{
  Result, ok, err, Action, raise, pure, SqlError, query_row, World, ◌>>=◌,
}

-- A value of a JSON document. A number out of float64's range is `none`; arrays and objects fit no
-- field of the requests and are one case.
pub data Json (F : Type 0) : Type 0 where
  null : Json F
  boolean : Bool → Json F
  number : Option F → Json F
  string : Bytes → Json F
  compound : Json F

-- A request's body: the bytes up to the end of its first JSON value, and that value if it is an
-- object (or `null`, which reads like an object with no field).
pub record Body (F : Type 0) : Type 0 where
  pub size : ℕ
  pub fields : Option (List (Bytes × Json F))

pub record Request (F : Type 0) : Type 0 where
  pub claims : Option Claims
  pub path_value : Bytes
  pub query_values : List (Bytes × Bytes)
  pub body : Body F
  pub now : ℕ

pub record HttpError : Type 0 where
  pub status : ℕ
  pub message : Bytes

abbrev pub Handler : Type 0 → Type 0 → Type 0
Handler F A = Action F HttpError A

-- http.Error, and the return behind it
abbrev pub http_error : {F A : Type 0} → ℕ → Bytes → Handler F A
http_error status message = raise (record { status = status; message = message })

abbrev pub http_error_if : {F : Type 0} → Bool → ℕ → Bytes → Handler F (Unit {0})
http_error_if true status message = http_error status message
http_error_if false status message = pure tt

abbrev pub some_or : {F A : Type 0} → Option A → ℕ → Bytes → Handler F A
some_or none status message = http_error status message
some_or (some a) status message = pure a

abbrev pub max_request_body : ℕ
max_request_body = 2 ^ 20

-- r.URL.Query().Get(key)
unfoldable pub query_value : Bytes → List (Bytes × Bytes) → Bytes
query_value key [] = []
query_value key ((k, v) ∷ rest) = if bytes_eq k key then v else query_value key rest

-- ClaimsFrom, and currentUser: no claims, or an empty subject, is a wiring bug and fails closed.
unfoldable pub subject_of : Option Claims → Result HttpError Bytes
subject_of none = err (record { status = 500; message = bytes "Internal server error" })
subject_of (some c) =
    if is_empty c.subject
    then err (record { status = 500; message = bytes "Internal server error" })
    else ok c.subject

unfoldable pub current_user : {F : Type 0} → Request F → Handler F Bytes
unfolding subject_of
current_user r w = (subject_of r.claims, w)

-- The subject of a request's verified claims.
abbrev pub caller : {F : Type 0} → Request F → Bytes
caller r = elim r.claims [ none ↦ [] | some c ↦ c.subject ]

-- The loop of json.Decoder over an object's fields, with DisallowUnknownFields: `assign` gives a
-- field its value, or refuses it.
unfoldable pub assign_fields :
    {F S : Type 0} → (S → Bytes → Json F → Option S) → S → List (Bytes × Json F) → Option S
assign_fields assign s [] = some s
assign_fields assign s ((k, v) ∷ rest) = elim (assign s k v) [
  | none ↦ none
  | some s' ↦ assign_fields assign s' rest
]

unfoldable pub decode_body :
    {F S : Type 0} → (S → Bytes → Json F → Option S) → S → Body F → Option S
decode_body assign zero_value body =
    if ltb max_request_body body.size
    then none
    else elim body.fields [ none ↦ none | some fields ↦ assign_fields assign zero_value fields ]

-- decodeJSON
unfoldable pub decode_json :
    {F S : Type 0} → (S → Bytes → Json F → Option S) → S → Body F → Handler F S
decode_json assign zero_value body =
    some_or (decode_body assign zero_value body) 400 (bytes "Invalid request body")

-- A text or a number where a field wants one; `null` leaves the field as it is.
abbrev pub text_field : {F : Type 0} → Bytes → Json F → Option Bytes
text_field old null = some old
text_field old (string s) = some s
text_field old (boolean b) = none
text_field old (number n) = none
text_field old compound = none

abbrev pub number_field : {F : Type 0} → F → Json F → Option F
number_field old null = some old
number_field old (number n) = n
number_field old (string s) = none
number_field old (boolean b) = none
number_field old compound = none

-- accountOwnedBy
unfoldable pub account_owned_by : {F : Type 0} → ℤ → Bytes → Action F SqlError Bytes
account_owned_by id user w =
    let (r, w') = query_row (account_by id user) w in
    (elim r [ ok a ↦ ok a.type | err e ↦ err e ], w')

-- An identity that is accepted is the caller's.
pub caller-subject_of :
    {F : Type 0} (r : Request F) (user : Bytes) → subject_of r.claims ≡ ok user → user ≡ caller r
unfolding subject_of
caller-subject_of r user h = ground arith
