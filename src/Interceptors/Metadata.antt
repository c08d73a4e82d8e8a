-- ===== src/Interceptors/Metadata.antt =====
-- The parameters that `createVolume` of pkg/interceptors/interceptors.go gives to the handler.
use test_powerstore_automati.Base.{
  ◌≡◌, refl, sym, ap, arith, eq_iff, Option, none, some, [], ◌∷◌, String, Dict, lookup, insert,
  lookup-insert,
}
use test_powerstore_automati.Outcome.{Outcome, ok, panic}
use test_powerstore_automati.Client.Monad.{World, M, lift, ◌>>=◌}
use test_powerstore_automati.Controller.Create.Requests.{CreateRequest, CreatedVolume, read}

-- `for k, v := range metadataRes.Parameters { req.Parameters[k] = v }`
unfoldable pub merge_metadata : Dict String → Dict String → Dict String
merge_metadata [] parameters = parameters
merge_metadata ((k, v) ∷ labels) parameters = merge_metadata labels (insert k v parameters)

-- `metadataRes`, which may be nil, and the request's map of parameters, which may be nil: writing
-- into a nil map panics.
unfoldable pub add_metadata :
    Option (Dict String) → Option (Dict String) → Outcome (Option (Dict String))
add_metadata none parameters = ok parameters
add_metadata (some labels) (some parameters) = ok (some (merge_metadata labels parameters))
add_metadata (some []) none = ok none
add_metadata (some (label ∷ labels)) none = panic

-- A map has a key once.
abbrev pub IsMap : Dict String → Type 0
IsMap [] = Unit
IsMap ((k, v) ∷ m) = (lookup k m ≡ none) × IsMap m

abbrev pub or_else : Option String → Option String → Option String
or_else none other = other
or_else (some v) other = some v

lookup-merge_metadata :
    (labels parameters : Dict String) (key : String)
    → IsMap labels
    → lookup key (merge_metadata labels parameters)
      ≡ or_else (lookup key labels) (lookup key parameters)
unfolding merge_metadata lookup
lookup-merge_metadata [] parameters key h = refl
lookup-merge_metadata ((k, v) ∷ labels) parameters key (h, hs) =
    rw
      (
        lookup-merge_metadata labels (insert k v parameters) key hs,
        lookup-insert k key v parameters,
      )
      (ground (arith, eq_iff k key))

-- The client of the metadata sidecar: the name and the namespace of a claim give its labels, or nil.
-- An error beside them is logged only.
abbrev pub Sidecar : Type 0
Sidecar = String → String → Option (Dict String)

-- What is retrieved for the claim of a request, if there is a sidecar.
unfoldable pub retrieved : Option Sidecar → CreateRequest → Option (Dict String)
retrieved none req = none
retrieved (some get_pvc_labels) req =
    get_pvc_labels (read "csi.storage.k8s.io/pvc/name" req.parameters)
      (read "csi.storage.k8s.io/pvc/namespace" req.parameters)

-- `createVolume`, between the lock and its release: the parameters are written, and the handler runs.
unfoldable pub create_volume_intercepted :
    Option Sidecar → (CreateRequest → M CreatedVolume) → CreateRequest → M CreatedVolume
create_volume_intercepted sidecar handler req =
    lift (add_metadata (retrieved sidecar req) req.parameters)
    >>= (λ parameters. handler (record req { parameters = parameters }))

-- The result of the intercepted handler, by the labels and the request's parameters.
abbrev pub Sees :
    (CreateRequest → M CreatedVolume)
    → CreateRequest
    → World
    → Option (Dict String)
    → Option (Dict String)
    → Outcome CreatedVolume × World
    → Type 0
Sees handler req w none parameters result = result ≡ handler req w
Sees handler req w (some []) none result = result ≡ handler req w
Sees handler req w (some (label ∷ labels)) none result = result ≡ (panic, w)
Sees handler req w (some labels) (some parameters) result =
    (merged : Dict String) × (result ≡ handler (record req { parameters = some merged }) w)
    × ((key : String) → lookup key merged ≡ or_else (lookup key labels) (lookup key parameters))

abbrev pub IsMapIfAny : Option (Dict String) → Type 0
IsMapIfAny none = Unit
IsMapIfAny (some labels) = IsMap labels

add_metadata-Sees :
    (handler : CreateRequest → M CreatedVolume) (req : CreateRequest) (w : World)
    (labels parameters : Option (Dict String))
    → IsMapIfAny labels
    → req.parameters ≡ parameters
    → Sees handler req w labels parameters (
        (lift (add_metadata labels parameters)
            >>= (λ found. handler (record req { parameters = found })))
          w)
unfolding add_metadata
add_metadata-Sees handler req w none parameters h e =
    ap (λ p. handler (record req { parameters = p }) w) (sym e)
add_metadata-Sees handler req w (some []) none h e =
    ap (λ p. handler (record req { parameters = p }) w) (sym e)
add_metadata-Sees handler req w (some (label ∷ labels)) none h e = refl
add_metadata-Sees handler req w (some []) (some parameters) h e =
    (merge_metadata [] parameters, refl, λ key. lookup-merge_metadata [] parameters key h)
add_metadata-Sees handler req w (some (label ∷ labels)) (some parameters) h e = (
  merge_metadata (label ∷ labels) parameters,
  refl,
  λ key. lookup-merge_metadata (label ∷ labels) parameters key h,
)

-- The handler of CreateVolume runs with a request that differs only in its parameters, and its result
-- is the interceptor's. If labels were retrieved for the claim and the request has parameters, it sees
-- each label, whatever the request says of its key, and the request's parameters for all other keys.
-- If nothing was retrieved, or no label for a request without parameters, it sees the request as it
-- is; and for a request without parameters any label is a panic before the handler. The labels are a
-- map (each key once).
pub create_volume_intercepted-Sees :
    (sidecar : Option Sidecar) (handler : CreateRequest → M CreatedVolume) (req : CreateRequest)
    (w : World)
    → IsMapIfAny (retrieved sidecar req)
    → Sees handler req w
        (retrieved sidecar req)
        req.parameters
        (create_volume_intercepted sidecar handler req w)
unfolding create_volume_intercepted
create_volume_intercepted-Sees sidecar handler req w h =
    add_metadata-Sees handler req w (retrieved sidecar req) req.parameters h refl
