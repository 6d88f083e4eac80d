-- ===== src/Handlers/Http/Decode.antt =====
-- The strictness of decodeJSON.
use maroon_ledger.Base.{◌≡◌, refl, Option, none, some, List}
use maroon_ledger.Go.Bytes.{Bytes, bytes}
use maroon_ledger.Handlers.World.{World}
use maroon_ledger.Handlers.Http.{Json, Body, decode_body, decode_json, some_or}

module _ {F S : Type 0} (assign : S → Bytes → Json F → Option S) where
  some_or-steady : (o : Option S) (message : Bytes) (w : World F) → (some_or o 400 message w).1 ≡ w
  some_or-steady none message w = refl
  some_or-steady (some s) message w = refl

  -- Decoding reads the request alone.
  pub decode_json-steady :
      (zero_value : S) (body : Body F) (w : World F) → (decode_json assign zero_value body w).1 ≡ w
  unfolding decode_json
  decode_json-steady zero_value body w =
      some_or-steady (decode_body assign zero_value body) (bytes "Invalid request body") w
