-- ===== src/Controller/Capacity.antt =====
-- `GetCapacity` of pkg/controller/controller.go, and the cache of the largest volume sizes. The
-- cache is a map behind a mutex of its own; a request reads it once, and writes it once at most.
pub mod Laws
use test_powerstore_automati.Base.{
  Bool, ◌||◌, Option, none, some, List, [], ◌∷◌, ◌++◌, String, Dict, lookup, insert, erase,
  or_default, if◌then◌else◌,
}
use test_powerstore_automati.Base.Int64.{ℤ, pos, lt_ℤ}
use test_powerstore_automati.Outcome.{internal}
use test_powerstore_automati.Client.{
  Client, Headers, get_custom_http_headers, set_custom_http_headers, get_capacity,
  get_max_volume_size,
}
use test_powerstore_automati.Client.Monad.{
  World, M, ret, fail, crash, call, if_error, if_missing, ◌>>=◌,
}
use test_powerstore_automati.Arrays.{PowerStoreArray}
use test_powerstore_automati.Controller.{Service}

-- `maxVolumesSizeForArray`, by the Global ID.
abbrev pub Cache : Type 0
Cache = Dict ℤ

-- net/http's `Header.Add` and `Header.Del`, for a name in its canonical form.
abbrev pub add_header : String → String → Headers → Headers
add_header name value headers =
    insert name (or_default (lookup name headers) [] ++ (value ∷ [])) headers

-- The custom headers of a client, or new ones.
abbrev pub headers_or_new : Option Headers → Headers
headers_or_new found = or_default found []

abbrev pub visibility : String
visibility = "Dell-Visibility"

module _ (c : Client) (connection : String) where
  -- `getMaximumVolumeSize`, without a size in the cache: the request runs with an internal header.
  -- An error is logged, and the value beside it is what is cached.
  unfoldable pub ask_maximum_volume_size : M ℤ
  ask_maximum_volume_size = do
    found ← call c connection get_custom_http_headers
    let headers = headers_or_new found.value
    set ← call c connection (set_custom_http_headers (add_header visibility "internal" headers))
    size ← call c connection get_max_volume_size
    reset ←
        call c connection
          (set_custom_http_headers (erase visibility (add_header visibility "internal" headers)))
    ret size.value

-- A size that may be used: one that is not negative.
abbrev pub usable : Option ℤ → Option ℤ
usable none = none
usable (some size) = if lt_ℤ size (pos 0) then none else some size

module _ (c : Client) where
  -- `getMaximumVolumeSize`, with the cache that it leaves.
  unfoldable pub get_maximum_volume_size : Cache → PowerStoreArray → M (ℤ × Cache)
  get_maximum_volume_size cache arr =
      if_missing (usable (lookup arr.global_id cache))
        (ask_maximum_volume_size c arr.connection
          >>= (λ size. ret (size, insert arr.global_id size cache)))
        (λ size. ret (size, cache))

-- `csi.GetCapacityResponse`: the largest volume size may be left out.
pub record CapacityResponse : Type 0 where
  pub available_capacity : ℤ
  pub maximum_volume_size : Option ℤ

module _ (c : Client) (s : Service) where
  unfoldable pub capacity_of : Cache → PowerStoreArray → M (CapacityResponse × Cache)
  capacity_of cache arr = do
    capacity ← call c arr.connection get_capacity
    if_error capacity (λ _. fail internal)
        (λ available. get_maximum_volume_size c cache arr >>= (λ (size, after). ret (
          record { available_capacity = available; maximum_volume_size = usable (some size) },
          after,
        )))

  -- `params[KeyArrayID]`: without it the default array is meant, which may be nil.
  unfoldable pub get_capacity_request :
      Cache → (array_id : Option String) → M (CapacityResponse × Cache)
  get_capacity_request cache none = if_missing s.known.default_array crash (capacity_of cache)
  get_capacity_request cache (some id) =
      if_missing (lookup id s.known.arrays) (fail internal) (capacity_of cache)
