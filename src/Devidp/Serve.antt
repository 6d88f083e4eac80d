-- ===== src/Devidp/Serve.antt =====
-- The HTTP handler of app/cmd/devidp/main.go: allowCORS around its mux.
use maroon_ledger.Base.{ℕ, Bool, true, false, ◌&&◌, ◌||◌, List, [], ◌∷◌, if◌then◌else◌}
use maroon_ledger.Go.Bytes.{Bytes, bytes, bytes_eq}
use maroon_ledger.Go.Http.{Writer, fresh_writer, with_header, write_header, write_body, http_error}
use maroon_ledger.Handlers.World.{Result, ok, err}
use maroon_ledger.Handlers.Http.{HttpError}
use maroon_ledger.Devidp.{
  Settings, Digest, Signer, TokenRequest, TokenResponse, Discovery, token, discovery,
}
use maroon_ledger.Devidp.Keys.{PublicKey, Jwk, jwk}

-- A body: text, or a value that is encoded as JSON.
pub data IdpBody : Type 0 where
  text : Bytes → IdpBody
  keys : List Jwk → IdpBody
  configuration : Discovery → IdpBody
  issued : TokenResponse → IdpBody

-- A request; its path is the segments behind the slashes.
pub record IdpRequest : Type 0 where
  pub method : Bytes
  pub path : List Bytes
  pub token_request : TokenRequest
  pub now : ℕ

-- writeJSON
unfoldable pub write_idp : ℕ → IdpBody → Writer IdpBody → Writer IdpBody
write_idp status body w =
    write_body body
      (write_header status (with_header (bytes "Content-Type") (bytes "application/json") w))

unfoldable pub write_token : Result HttpError TokenResponse → Writer IdpBody → Writer IdpBody
write_token (ok response) w = write_idp 200 (issued response) w
write_token (err e) w = http_error text e.message e.status w

abbrev same_path : List Bytes → List Bytes → Bool
same_path [] [] = true
same_path (a ∷ p) (b ∷ q) = bytes_eq a b && same_path p q
same_path [] (b ∷ q) = false
same_path (a ∷ p) [] = false

abbrev is_get : Bytes → Bool
is_get m = bytes_eq m (bytes "GET") || bytes_eq m (bytes "HEAD")

abbrev only : Bytes → Bool → Writer IdpBody → Writer IdpBody → Writer IdpBody
only allow allowed done w =
    if allowed
    then done
    else http_error text (bytes "Method Not Allowed") 405 (with_header (bytes "Allow") allow w)

module _ (sha256 : Digest) (sign : Signer) (key : PublicKey) (s : Settings) where
  -- The mux.
  unfoldable pub idp_mux : IdpRequest → Writer IdpBody → Writer IdpBody
  idp_mux r w =
      if same_path r.path (bytes ".well-known" ∷ bytes "jwks.json" ∷ [])
      then only (bytes "GET, HEAD") (is_get r.method) (write_idp 200 (keys (jwk sha256 key ∷ [])) w)
          w
      else if same_path r.path (bytes ".well-known" ∷ bytes "openid-configuration" ∷ [])
      then only (bytes "GET, HEAD") (is_get r.method)
          (write_idp 200 (configuration (discovery s)) w) w
      else if same_path r.path (bytes "token" ∷ [])
      then only (bytes "POST") (bytes_eq r.method (bytes "POST"))
          (write_token (token sha256 sign s r.token_request r.now) w) w
      else http_error text (bytes "404 page not found") 404 w

  abbrev cors_headers : Writer IdpBody → Writer IdpBody
  cors_headers w = with_header (bytes "Access-Control-Max-Age") (bytes "600") (
      with_header (bytes "Access-Control-Allow-Headers") (bytes "Content-Type") (
        with_header (bytes "Access-Control-Allow-Methods") (bytes "GET, POST, OPTIONS")
          (with_header (bytes "Access-Control-Allow-Origin") (bytes "*") w)))

  -- allowCORS: a preflight is answered ahead of the mux.
  unfoldable pub allow_cors : IdpRequest → Writer IdpBody
  allow_cors r =
      let w = cors_headers fresh_writer in
      if bytes_eq r.method (bytes "OPTIONS") then write_header 204 w else idp_mux r w
