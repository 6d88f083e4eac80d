-- ===== src/Server/Handle/Guarded.antt =====
-- Which requests change the ledger: by method and path, behind the verifier.
use maroon_ledger.Base.{
  ℕ, ◌≡◌, refl, ap, ◌∙◌, ◌⊎◌, inl, inr, Bool, Option, none, some, List, [], ◌∷◌, ◌++◌, arith,
}
use maroon_ledger.Go.Bytes.{Bytes, bytes, bytes_eq}
use maroon_ledger.Go.Float.{Float64}
use maroon_ledger.Auth.Claims.{Claims}
use maroon_ledger.Auth.Verifier.{authenticate}
use maroon_ledger.Handlers.World.Rules.{Same}
use maroon_ledger.Handlers.Http.{Request}
use maroon_ledger.Server.{Services, State, seconds}
use maroon_ledger.Server.Change.{Change, dispatch-Change}
use maroon_ledger.Server.Mux as Mux
use maroon_ledger.Server.Mux.{
  Segments, Resource, Match, found, wrong_method, not_found, match_resource, resource_of, Target,
  health, api, to_api, no_such_path, get_health, target_of, is_get,
}
use maroon_ledger.Go.Http.{fresh_writer, http_error}
use maroon_ledger.Server.Handle.{
  Incoming, Response, security_headers, write_result, admitted, api_mux, guarded_api, outer_mux,
  handle,
}
use maroon_ledger.Server.Change.Reads.{dispatch-Same}
use maroon_ledger.Server.Mux.Paths.{
  match_resource-writes, resource_of-accounts, resource_of-transactions, target_of-api,
}

module _ {F L : Type 0} ⦃fl : Float64 F⦄ (svc : Services F L) where
  -- What a request has done that did more than read: a POST, with a valid token, to the accounts or
  -- to the transactions of one, and a change that the token's subject may make.
  pub record IsWrite (i : Incoming F) (s s' : State F L) : Type 0 where
    pub claims : Claims
    pub authenticated :
        authenticate svc.unicode svc.issuer svc.parser (seconds i.request.now) i.authorization
        ≡ some claims
    pub posts : i.method ≡ bytes "POST"
    pub path :
        (i.path ≡ bytes "api" ∷ bytes "accounts" ∷ [])
        ⊎ ((id : Bytes) × (i.path
              ≡ bytes "api" ∷ bytes "accounts" ∷ id ∷ bytes "transactions" ∷ []))
    pub change : Change claims.subject s.world s'.world

  write_path :
      (segments path : Segments) (v : Bytes)
      → path ≡ bytes "api" ∷ segments
      → (resource_of segments ≡ some Mux.accounts)
        ⊎ (resource_of segments ≡ some (Mux.transactions v))
      → (path ≡ bytes "api" ∷ bytes "accounts" ∷ [])
        ⊎ ((id : Bytes) × (path ≡ bytes "api" ∷ bytes "accounts" ∷ id ∷ bytes "transactions" ∷ []))
  write_path segments path v e (inl h) = inl (rw e (rw (resource_of-accounts segments h) refl))
  write_path segments path v e (inr h) =
      inr (v, rw e (rw (resource_of-transactions segments v h) refl))

  admitted-writes :
      (i : Incoming F) (segments : Segments) (s : State F L) (w : Response F) (m : Match)
      (claims : Option Claims)
      → i.path ≡ bytes "api" ∷ segments
      → match_resource i.method (resource_of segments) ≡ m
      → authenticate svc.unicode svc.issuer svc.parser (seconds i.request.now) i.authorization
        ≡ claims
      → Same s.world (admitted svc m i.request s w claims).1.world
        ⊎ IsWrite i s (admitted svc m i.request s w claims).1
  unfolding api_mux
  admitted-writes i segments s w m none p e a = inl (refl, refl)
  admitted-writes i segments s w not_found (some claims) p e a = inl (refl, refl)
  admitted-writes i segments s w (wrong_method allow) (some claims) p e a = inl (refl, refl)
  admitted-writes i segments s w (found route v) (some claims) p e a =
      let r : Request F = record (record i.request { claims = some claims }) { path_value = v } in
      elim (match_resource-writes i.method (resource_of segments) route v e) [
        | inl only_reads ↦ inl (dispatch-Same svc route r s only_reads)
        | inr (posts, at) ↦ inr (record {
          claims = claims;
          authenticated = a;
          posts = posts;
          path = write_path segments i.path v p at;
          change = dispatch-Change svc route r s;
        })
      ]

  outer_mux-writes :
      (ping : Bool) (target : Target) (i : Incoming F) (s : State F L) (w : Response F)
      → target_of i.method i.path ≡ target
      → Same s.world (outer_mux svc ping target i s w).1.world
        ⊎ IsWrite i s (outer_mux svc ping target i s w).1
  unfolding outer_mux guarded_api
  outer_mux-writes ping health i s w e = inl (refl, refl)
  outer_mux-writes ping (api segments) i s w e =
      admitted-writes i segments s w _ _ (target_of-api i.method i.path segments e) refl refl
  outer_mux-writes ping to_api i s w e = inl (refl, refl)
  outer_mux-writes ping no_such_path i s w e = inl (refl, refl)
  outer_mux-writes ping get_health i s w e = inl (refl, refl)

  -- Without a valid token nothing changes, and the API answers 401.
  outer_mux-refuses :
      (ping : Bool) (target : Target) (i : Incoming F) (s : State F L) (w : Response F)
      → authenticate svc.unicode svc.issuer svc.parser (seconds i.request.now) i.authorization
        ≡ none
      → ((outer_mux svc ping target i s w).1 ≡ s)
        × ((segments : Segments)
            → target ≡ api segments
            → (outer_mux svc ping target i s w).0.codes ≡ w.codes ++ 401 ∷ [])
  unfolding outer_mux guarded_api write_result http_error
  outer_mux-refuses ping health i s w a = (refl, λ segments e. absurd (ground arith))
  outer_mux-refuses ping (api segments) i s w a = rw a (refl, λ segments' e. refl)
  outer_mux-refuses ping to_api i s w a = (refl, λ segments e. absurd (ground arith))
  outer_mux-refuses ping no_such_path i s w a = (refl, λ segments e. absurd (ground arith))
  outer_mux-refuses ping get_health i s w a = (refl, λ segments e. absurd (ground arith))

  target_of-behind_api :
      (m b : Bytes) (rest : Segments) → target_of m (bytes "api" ∷ b ∷ rest) ≡ api (b ∷ rest)
  unfolding target_of bytes bytes_eq
  target_of-behind_api m b rest = refl

  unwritten_at_first : (security_headers {F = F} fresh_writer).codes ≡ []
  unfolding security_headers
  unwritten_at_first = refl

  -- Whatever arrives at the server's handler: it leaves the database and the events as they are, or
  -- it is a POST to `/api/accounts` or `/api/accounts/{id}/transactions` with a valid token, and
  -- what it changes is what the token's subject may: a number used up, an account of its own opened,
  -- or a transaction recorded on one of its own. Without a valid token nothing changes, not even a
  -- budget, and any method on any path behind `/api/` is answered 401, one that is no route too.
  pub handle-guards :
      (ping : Bool) (i : Incoming F) (s : State F L)
      → let (w, line, s') = handle svc ping i s in
        (Same s.world s'.world ⊎ IsWrite i s s')
        × (authenticate svc.unicode svc.issuer svc.parser (seconds i.request.now) i.authorization
              ≡ none
            → (s' ≡ s)
              × ((b : Bytes) (rest : Segments)
                  → i.path ≡ bytes "api" ∷ b ∷ rest
                  → w.codes ≡ 401 ∷ []))
  unfolding handle
  handle-guards ping i s =
      let target = target_of i.method i.path in
      let w : Response F = security_headers fresh_writer in
      (
        outer_mux-writes ping target i s w refl,
        λ a.
            let (same, refused) = outer_mux-refuses ping target i s w a in
            (
              same,
              λ b rest p.
                  refused (b ∷ rest)
                    (ap (target_of i.method) p ∙ target_of-behind_api i.method b rest)
                  ∙ ap (λ (codes : List ℕ). codes ++ 401 ∷ []) unwritten_at_first,
            ),
      )
