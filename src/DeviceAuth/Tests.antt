-- ===== src/DeviceAuth/Tests.antt =====
-- A signed request that is sent twice, with another between.
use awiki_open_server.Shared.{String, ◌≡◌, ◌≢◌, refl, arith, [], ◌∷◌, ok}
use awiki_open_server.DeviceAuth.{consume_auth_nonce, is_refused, store_nonce}
use awiki_open_server.DeviceAuth.Nonces.{Attempt, signed, consume_all, nonce_accepted_once}
use awiki_open_server.Shared.Text.{is_blank}
use awiki_open_server.Shared.Decimal.{text_length}

abbrev hash : String → String → String
hash key_id nonce = nonce

abbrev other : Attempt
other = record { key_id = "key-1"; params = signed "nonce-2" 1000 1060; now = 1010 }

accepted :
    consume_auth_nonce hash "key-1" (signed "nonce-1" 1000 1060) 1005 []
    ≡ ok (record { nonce_hash = "nonce-1"; expires_at = 1090 } ∷ [])
unfolding consume_auth_nonce is_refused store_nonce is_blank text_length
accepted = refl

nonce_accepted_once_example :
    consume_auth_nonce hash "key-1"
      (signed "nonce-1" 1000 1060)
      1020
      (consume_all hash (other ∷ []) (record { nonce_hash = "nonce-1"; expires_at = 1090 } ∷ []))
    ≢ ok []
nonce_accepted_once_example =
    nonce_accepted_once hash "key-1" "nonce-1" 1000 1060 1005 1020 [] _ [] (other ∷ []) accepted
      (omega arith, tt)
