-- ===== src/Server/Handle.antt =====
-- The server's whole handler of app/cmd/server/main.go: requestLogger around securityHeaders around
-- the muxes.
pub mod Secured
pub mod Guarded
use maroon_ledger.Base.{
  ℕ, zero, suc, ◌+◌, ◌-◌, ◌*◌, ◌/◌, ◌%◌, ◌^◌, ◌≤◌, ◌<◌, String, ◌≡◌, refl, sym, ap, ◌∙◌, ◌≢◌, ◌↔◌,
  ◌⊎◌, inl, inr, Bool, true, false, not, ◌&&◌, ◌||◌, Option, none, some, List, [], ◌∷◌, ◌++◌, map,
  append-nil, append_assoc, arith, ltb, leb, ◌==◌, if◌then◌else◌, Bool-cases, Option-cases, is_some,
  length, length-append, All, All-append,
}
use maroon_ledger.Go.Bytes.{Bytes, bytes, join}
use maroon_ledger.Go.Float.{Float64}
use maroon_ledger.Go.Http.{
  Writer, fresh_writer, with_header, write_header, write_body, http_error, sent_status,
}
use maroon_ledger.Auth.Claims.{Claims}
use maroon_ledger.Auth.Verifier.{authenticate}
use maroon_ledger.Handlers.World.{Result, ok, err}
use maroon_ledger.Handlers.Http.{Request, HttpError}
use maroon_ledger.Server.{Answer, Services, State, dispatch, seconds}
use maroon_ledger.Server.Mux.{
  Segments, Match, found, wrong_method, not_found, match_resource, resource_of, Target, health, api,
  to_api, no_such_path, get_health, target_of,
}

-- A request as it arrives.
pub record Incoming (F : Type 0) : Type 0 where
  pub method : Bytes
  pub path : Segments
  pub authorization : Bytes
  pub request : Request F

-- A body: text, or an answer that is encoded as JSON.
pub data Payload (F : Type 0) : Type 0 where
  text : Bytes → Payload F
  json : Answer F → Payload F

abbrev pub Response : Type 0 → Type 0
Response F = Writer (Payload F)

module _ {F : Type 0} where
  -- writeJSON
  unfoldable pub write_json : ℕ → Answer F → Response F → Response F
  write_json status answer w =
      write_body (json answer)
        (write_header status (with_header (bytes "Content-Type") (bytes "application/json") w))

  -- The headers that go with an error: only the verifier answers 401, and only a limiter 429.
  abbrev error_headers : ℕ → Response F → Response F
  error_headers status w =
      if status == 401
      then with_header (bytes "WWW-Authenticate") (bytes "Bearer realm=\"maroonledger\"") w
      else if status == 429
      then with_header (bytes "Retry-After") (bytes "60") w
      else w

  -- What a handler has come to, written.
  unfoldable pub write_result : Result HttpError (ℕ × Answer F) → Response F → Response F
  write_result (ok (status, answer)) w = write_json status answer w
  write_result (err e) w = http_error text e.message e.status (error_headers e.status w)

  -- The handler of GET /health, by what the ping gives.
  unfoldable pub health_check : Bool → Response F → Response F
  health_check true w =
      write_body (text (bytes "{\"status\":\"ok\"}"))
        (with_header (bytes "Content-Type") (bytes "application/json") w)
  health_check false w = http_error text (bytes "{\"status\":\"unhealthy\"}") 503 w

  -- What a mux answers itself.
  abbrev not_allowed : Bytes → Response F → Response F
  not_allowed allow w =
      http_error text (bytes "Method Not Allowed") 405 (with_header (bytes "Allow") allow w)

  abbrev page_not_found : Response F → Response F
  page_not_found w = http_error text (bytes "404 page not found") 404 w

  -- The redirect to `/api/`; its body is a link for browsers, and left out.
  abbrev moved : Response F → Response F
  moved w = write_header 301 (with_header (bytes "Location") (bytes "/api/") w)

  -- securityHeaders, ahead of the handler that it wraps.
  unfoldable pub security_headers : Response F → Response F
  security_headers w =
      with_header (bytes "Strict-Transport-Security") (bytes "max-age=31536000; includeSubDomains")
        (with_header (bytes "Cache-Control") (bytes "no-store") (
          with_header (bytes "Referrer-Policy") (bytes "no-referrer") (
            with_header (bytes "X-Frame-Options") (bytes "DENY")
              (with_header (bytes "X-Content-Type-Options") (bytes "nosniff") w))))

-- The line that requestLogger prints, less the duration.
pub record LogLine : Type 0 where
  pub method : Bytes
  pub path : Bytes
  pub status : ℕ

-- statusRecorder: the status of the last call, 200 without one.
unfoldable pub recorded_status : ℕ → List ℕ → ℕ
recorded_status status [] = status
recorded_status status (c ∷ cs) = recorded_status c cs

module _ {F L : Type 0} ⦃fl : Float64 F⦄ (svc : Services F L) where
  -- The mux of the API, behind the verifier.
  unfoldable pub api_mux : Match → Request F → State F L → Response F → Response F × State F L
  api_mux not_found r s w = (page_not_found w, s)
  api_mux (wrong_method allow) r s w = (not_allowed allow w, s)
  api_mux (found route value) r s w =
      let (done, s') = dispatch svc route (record r { path_value = value }) s in
      (write_result done w, s')

  abbrev pub admitted :
      Match → Request F → State F L → Response F → Option Claims → Response F × State F L
  admitted m r s w none =
      (write_result (err (record { status = 401; message = bytes "Unauthorized" })) w, s)
  admitted m r s w (some claims) = api_mux m (record r { claims = some claims }) s w

  -- Verifier.Middleware around the mux.
  unfoldable pub guarded_api :
      Bytes → Match → Request F → State F L → Response F → Response F × State F L
  guarded_api header m r s w =
      admitted m r s w (authenticate svc.unicode svc.issuer svc.parser (seconds r.now) header)

  -- The outer mux; `ping` is what PingContext gives.
  unfoldable pub outer_mux :
      Bool → Target → Incoming F → State F L → Response F → Response F × State F L
  outer_mux ping health i s w = (health_check ping w, s)
  outer_mux ping (api segments) i s w =
      guarded_api i.authorization (match_resource i.method (resource_of segments)) i.request s w
  outer_mux ping to_api i s w = (moved w, s)
  outer_mux ping no_such_path i s w = (page_not_found w, s)
  outer_mux ping get_health i s w = (not_allowed (bytes "GET, HEAD") w, s)

  -- The server's handler: the response, the log's line, and the state behind it.
  unfoldable pub handle : Bool → Incoming F → State F L → Response F × LogLine × State F L
  handle ping i s =
      let (w, s') =
        outer_mux ping (target_of i.method i.path) i s (security_headers fresh_writer) in
      (
        w,
        record {
          method = i.method;
          path = b'/' ∷ join i.path (bytes "/");
          status = recorded_status 200 w.codes;
        },
        s',
      )
