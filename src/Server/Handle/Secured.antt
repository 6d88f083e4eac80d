-- ===== src/Server/Handle/Secured.antt =====
-- What every response of the server carries, and what is logged of it.
use maroon_ledger.Base.{
  ℕ, ◌≤◌, ◌≡◌, refl, ◌∙◌, inl, inr, Bool, true, false, Option, none, some, List, [], ◌∷◌, arith,
  ◌==◌, Bool-cases, length,
}
use maroon_ledger.Go.Bytes.{Bytes, bytes, bytes_eq, join}
use maroon_ledger.Go.Float.{Float64}
use maroon_ledger.Go.Http.{
  Headers, header, set_header, header-set_header, header-set_other, fresh_writer, with_header,
  http_error, sent_status,
}
use maroon_ledger.Auth.Claims.{Claims}
use maroon_ledger.Handlers.World.{Result, ok, err}
use maroon_ledger.Handlers.Http.{Request, HttpError}
use maroon_ledger.Server.{Answer, Services, State, dispatch}
use maroon_ledger.Server.Mux.{
  Match, found, wrong_method, not_found, Target, health, api, to_api, no_such_path, get_health,
  target_of,
}
use maroon_ledger.Server.Handle.{
  Incoming, text, Response, write_json, write_result, health_check, security_headers,
  recorded_status, api_mux, admitted, guarded_api, outer_mux, handle,
}

-- The five headers, each with its value.
pub record IsSecure (hs : Headers) : Type 0 where
  pub sniffing : header (bytes "X-Content-Type-Options") hs ≡ some (bytes "nosniff")
  pub framing : header (bytes "X-Frame-Options") hs ≡ some (bytes "DENY")
  pub referrer : header (bytes "Referrer-Policy") hs ≡ some (bytes "no-referrer")
  pub caching : header (bytes "Cache-Control") hs ≡ some (bytes "no-store")
  pub transport :
      header (bytes "Strict-Transport-Security") hs
      ≡ some (bytes "max-age=31536000; includeSubDomains")

-- A key that is none of the five.
abbrev IsOther : Bytes → Type 0
IsOther key =
    (bytes_eq key (bytes "X-Content-Type-Options") ≡ false)
    × (bytes_eq key (bytes "X-Frame-Options") ≡ false)
    × (bytes_eq key (bytes "Referrer-Policy") ≡ false)
    × (bytes_eq key (bytes "Cache-Control") ≡ false)
    × (bytes_eq key (bytes "Strict-Transport-Security") ≡ false)

set_other-IsSecure :
    (key v : Bytes) (hs : Headers) → IsOther key → IsSecure hs → IsSecure (set_header key v hs)
set_other-IsSecure key v hs (a, b, c, d, e) s = record {
  sniffing = header-set_other _ key v hs a ∙ s.sniffing;
  framing = header-set_other _ key v hs b ∙ s.framing;
  referrer = header-set_other _ key v hs c ∙ s.referrer;
  caching = header-set_other _ key v hs d ∙ s.caching;
  transport = header-set_other _ key v hs e ∙ s.transport;
}

others :
    IsOther (bytes "Content-Type")
    × IsOther (bytes "WWW-Authenticate")
    × IsOther (bytes "Retry-After")
    × IsOther (bytes "Allow")
    × IsOther (bytes "Location")
unfolding bytes bytes_eq
others = (
  (refl, refl, refl, refl, refl),
  (refl, refl, refl, refl, refl),
  (refl, refl, refl, refl, refl),
  (refl, refl, refl, refl, refl),
  (refl, refl, refl, refl, refl),
)

-- Setting the first of the five again leaves the others as they are.
sniffing_apart :
    (bytes_eq (bytes "X-Content-Type-Options") (bytes "X-Frame-Options") ≡ false)
    × (bytes_eq (bytes "X-Content-Type-Options") (bytes "Referrer-Policy") ≡ false)
    × (bytes_eq (bytes "X-Content-Type-Options") (bytes "Cache-Control") ≡ false)
    × (bytes_eq (bytes "X-Content-Type-Options") (bytes "Strict-Transport-Security") ≡ false)
unfolding bytes bytes_eq
sniffing_apart = (refl, refl, refl, refl)

set_sniffing-IsSecure :
    (hs : Headers)
    → IsSecure hs
    → IsSecure (set_header (bytes "X-Content-Type-Options") (bytes "nosniff") hs)
set_sniffing-IsSecure hs s =
    let (b, c, d, e) = sniffing_apart in
    record {
      sniffing = header-set_header _ _ hs;
      framing = header-set_other _ _ _ hs b ∙ s.framing;
      referrer = header-set_other _ _ _ hs c ∙ s.referrer;
      caching = header-set_other _ _ _ hs d ∙ s.caching;
      transport = header-set_other _ _ _ hs e ∙ s.transport;
    }

-- A response that is secure, and of which WriteHeader is called once at most.
pub record IsSound {F : Type 0} (w : Response F) : Type 0 where
  pub secure : IsSecure w.headers
  pub once : length w.codes ≤ 1

-- A response of which the header has not been written yet.
record IsOpen {F : Type 0} (w : Response F) : Type 0 where
  pub secure : IsSecure w.headers
  pub unwritten : w.codes ≡ []

module _ {F : Type 0} where
  with_other-IsOpen :
      (key v : Bytes) (w : Response F) → IsOther key → IsOpen w → IsOpen (with_header key v w)
  with_other-IsOpen key v w other o = record {
    secure = set_other-IsSecure key v w.headers other o.secure;
    unwritten = o.unwritten;
  }

  http_error-IsSound :
      (message : Bytes) (status : ℕ) (w : Response F)
      → IsOpen w
      → IsSound (http_error text message status w)
  unfolding http_error
  http_error-IsSound message status w o = record {
    secure = set_sniffing-IsSecure _ (set_other-IsSecure _ _ w.headers others.0 o.secure);
    once = rw o.unwritten (omega arith);
  }

  write_result-IsSound :
      (r : Result HttpError (ℕ × Answer F)) (w : Response F) → IsOpen w → IsSound (write_result r w)
  unfolding write_result write_json
  write_result-IsSound (ok (status, answer)) w o = record {
    secure = set_other-IsSecure _ _ w.headers others.0 o.secure;
    once = rw o.unwritten (omega arith);
  }
  write_result-IsSound (err e) w o = elim (Bool-cases (e.status == 401)) [
    | inl unauthorized ↦
        rw unauthorized
          (http_error-IsSound e.message e.status _ (with_other-IsOpen _ _ w others.1 o))
    | inr other ↦ elim (Bool-cases (e.status == 429)) [
      | inl limited ↦
          rw (other, limited)
            (http_error-IsSound e.message e.status _ (with_other-IsOpen _ _ w others.2 o))
      | inr plain ↦ rw (other, plain) (http_error-IsSound e.message e.status w o)
    ]
  ]

  health_check-IsSound : (ping : Bool) (w : Response F) → IsOpen w → IsSound (health_check ping w)
  unfolding health_check
  health_check-IsSound true w o = record {
    secure = set_other-IsSecure _ _ w.headers others.0 o.secure;
    once = rw o.unwritten (omega arith);
  }
  health_check-IsSound false w o = http_error-IsSound _ 503 w o

  security_headers-IsOpen : IsOpen (security_headers {F = F} fresh_writer)
  unfolding security_headers header set_header bytes bytes_eq
  security_headers-IsOpen = record {
    secure = record {
      sniffing = refl;
      framing = refl;
      referrer = refl;
      caching = refl;
      transport = refl;
    };
    unwritten = refl;
  }

-- With one call at most, the status that is recorded is the one that is sent.
recorded_status-once :
    (codes : List ℕ)
    → length codes ≤ 1
    → recorded_status 200 codes ≡ elim codes [ [] ↦ 200 | c ∷ cs ↦ c ]
unfolding recorded_status
recorded_status-once [] h = refl
recorded_status-once (c ∷ []) h = refl
recorded_status-once (c ∷ d ∷ cs) h = absurd (omega arith)

module _ {F L : Type 0} ⦃fl : Float64 F⦄ (svc : Services F L) where
  api_mux-IsSound :
      (m : Match) (r : Request F) (s : State F L) (w : Response F)
      → IsOpen w
      → IsSound (api_mux svc m r s w).0
  unfolding api_mux
  api_mux-IsSound not_found r s w o = http_error-IsSound _ 404 w o
  api_mux-IsSound (wrong_method allow) r s w o =
      http_error-IsSound _ 405 _ (with_other-IsOpen _ _ w others.3 o)
  api_mux-IsSound (found route value) r s w o =
      write_result-IsSound (dispatch svc route (record r { path_value = value }) s).0 w o

  admitted-IsSound :
      (m : Match) (r : Request F) (s : State F L) (w : Response F) (claims : Option Claims)
      → IsOpen w
      → IsSound (admitted svc m r s w claims).0
  admitted-IsSound m r s w none o = write_result-IsSound _ w o
  admitted-IsSound m r s w (some claims) o =
      api_mux-IsSound m (record r { claims = some claims }) s w o

  outer_mux-IsSound :
      (ping : Bool) (target : Target) (i : Incoming F) (s : State F L) (w : Response F)
      → IsOpen w
      → IsSound (outer_mux svc ping target i s w).0
  unfolding outer_mux guarded_api
  outer_mux-IsSound ping health i s w o = health_check-IsSound ping w o
  outer_mux-IsSound ping (api segments) i s w o = admitted-IsSound _ i.request s w _ o
  outer_mux-IsSound ping to_api i s w o = record {
    secure = (with_other-IsOpen _ _ w others.4 o).secure;
    once = rw o.unwritten (omega arith);
  }
  outer_mux-IsSound ping no_such_path i s w o = http_error-IsSound _ 404 w o
  outer_mux-IsSound ping get_health i s w o =
      http_error-IsSound _ 405 _ (with_other-IsOpen _ _ w others.3 o)

  -- Whatever is requested and whatever comes of it, success, an error or an answer of the mux
  -- itself: the response carries the five security headers with their values, its header is written
  -- once at most, and the line that is logged says the method, the path and the status that is sent,
  -- and nothing else of the request.
  pub handle-IsSound :
      (ping : Bool) (i : Incoming F) (s : State F L)
      → let (w, line, s') = handle svc ping i s in
        IsSound w
        × (line ≡ record {
          method = i.method;
          path = b'/' ∷ join i.path (bytes "/");
          status = sent_status w;
        })
  unfolding handle
  handle-IsSound ping i s =
      let sound =
        outer_mux-IsSound ping (target_of i.method i.path) i s _ security_headers-IsOpen in
      (sound, rw (recorded_status-once _ sound.once) refl)
