-- ===== src/Dht/Rpc/Checks.antt =====
-- The checks of `handleStoreProvider` come to an end.
use mini_ipfs.Prelude.{◌≢◌, Option, none, some, Result, ok, err, panic, running, ◌>>=◌}
use mini_ipfs.Hex.{decode_string}
use mini_ipfs.Dht.Json.{Json, as_text, as_object, get_field}
use mini_ipfs.Dht.Rpc.{
  StoreFailure, hash_key, parse_store_provider, require, provider_key, id_key, addr_key,
}

-- The checks of a request to store come to an end.
pub data Returns {A : Type 0} : Result StoreFailure A → Type 0 where
  returned : (a : A) → Returns (ok a)
  failed : (e : StoreFailure) → Returns (err e)

require-Returns :
    {A B : Type 0} (e : StoreFailure) (o : Option A) (f : A → Result StoreFailure B)
    → ((a : A) → Returns (f a))
    → Returns (require e o >>= f)
require-Returns e none f h = Returns.failed e
require-Returns e (some a) f h = h a

pub parse_store_provider-Returns : (payload : Json) → Returns (parse_store_provider payload)
unfolding parse_store_provider
parse_store_provider-Returns payload =
    require-Returns StoreFailure.invalid_payload (as_object payload) _ (λ fields.
      require-Returns StoreFailure.missing_hash (as_text (get_field hash_key fields)) _ (λ hash_hex.
        require-Returns StoreFailure.missing_provider (as_object (get_field provider_key fields)) _
          (λ provider.
            require-Returns StoreFailure.invalid_provider_id (as_text (get_field id_key provider)) _
              (λ id_hex.
                require-Returns StoreFailure.invalid_provider_address
                  (as_text (get_field addr_key provider)) _
                  (λ addr.
                    require-Returns StoreFailure.invalid_provider_id_format (decode_string id_hex) _
                      (λ id. Returns.returned _))))))

pub not_panic : {A : Type 0} {r : Result StoreFailure A} → Returns r → (r ≢ panic) × (r ≢ running)
not_panic (Returns.returned a) = (λ e. cc, λ e. cc)
not_panic (Returns.failed x) = (λ e. cc, λ e. cc)
