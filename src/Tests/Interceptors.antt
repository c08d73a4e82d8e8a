-- ===== src/Tests/Interceptors.antt =====
-- Two requests for one volume, and the labels of a claim.
use test_powerstore_automati.Base.{
  ℕ, ◌≡◌, refl, arith, ◌⊎◌, Bool, true, false, [], ◌∷◌, String, Dict, lookup, insert, Option, none,
  some,
}
use test_powerstore_automati.Interceptors.{
  TryMutex, create_volume, node_stage_volume, running, aborted, System, initial, arrive, ask_lock,
  try, Reach, start, later, comes, asks, tries, get_lock, get_lock_with_id,
}
use test_powerstore_automati.Interceptors.Keys.{lock_key}
use test_powerstore_automati.Interceptors.Exclusion.{mutual_exclusion, try-aborts_only_same_key}
use test_powerstore_automati.Interceptors.Metadata.{
  Sidecar, retrieved, Sees, create_volume_intercepted, create_volume_intercepted-Sees,
}
use test_powerstore_automati.Base.Int64.{pos}
use test_powerstore_automati.Client.Monad.{World, M, ret}
use test_powerstore_automati.Controller.Create.Requests.{CreateRequest, CreatedVolume, read}
use test_powerstore_automati.Controller.Create.Creators.{csi_volume}

abbrev flag : TryMutex
flag = record {
  Mutex = Bool;
  fresh = false;
  try_lock = λ m. elim m [ true ↦ (false, true) | false ↦ (true, true) ];
  unlock = λ m. false;
  held = λ m. m;
  fresh_free = refl;
  try_free = λ m h. ground arith;
  try_held = λ m h. ground arith;
  got = λ m h. ground arith;
  not_got = λ m h. ground arith;
  unlocked = λ m. refl;
}

-- CreateVolume of `vol` runs, and NodeStageVolume of `vol` has its lock.
abbrev created : System flag
created = try flag (ask_lock flag (arrive flag (initial flag) 0 (create_volume "vol")) 0) 0

abbrev contended : System flag
contended = ask_lock flag (arrive flag created 1 (node_stage_volume "vol")) 1

created-Reach : Reach flag created
created-Reach =
    later (later (later start (comes 0 (create_volume "vol") refl)) (asks 0 refl)) (tries 0 refl)

contended-Reach : Reach flag contended
contended-Reach = later (later created-Reach (comes 1 (node_stage_volume "vol") refl)) (asks 1 refl)

mutual_exclusion_example : ◌≡◌ {A = ℕ} 0 0
unfolding get_lock get_lock_with_id lookup insert
mutual_exclusion_example = mutual_exclusion flag contended-Reach 0 0 refl refl refl

try-aborts_only_same_key_example :
    ((try flag contended 1).pc 1 ≡ running)
    ⊎ (((try flag contended 1).pc 1 ≡ aborted)
        × ((j : ℕ) × (contended.pc j ≡ running)
            × (lock_key (contended.request j) ≡ lock_key (contended.request 1))))
try-aborts_only_same_key_example = try-aborts_only_same_key flag contended-Reach 1 refl

abbrev world : World
world = record { history = []; trackers = [] }

abbrev request : CreateRequest
request = record {
  name = "csivol";
  required_bytes = pos 8192;
  limit_bytes = pos 0;
  volume_capabilities = [];
  parameters = none;
  accessibility = none;
  content_source = none;
}

abbrev labels : Dict String
labels = ("team", "a") ∷ ("Name", "labelled") ∷ []

abbrev parameters : Dict String
parameters = ("Name", "asked") ∷ []

abbrev asked : CreateRequest
asked = record request { parameters = some parameters }

abbrev sidecar : Option Sidecar
sidecar = some (λ name namespace. some labels)

-- A handler that answers the name that it was given in the parameters.
abbrev echo : CreateRequest → M CreatedVolume
echo req = ret (csi_volume (read "Name" req.parameters) (pos 0))

create_volume_intercepted-Sees_example :
    Sees echo asked world
      (retrieved sidecar asked)
      asked.parameters
      (create_volume_intercepted sidecar echo asked world)
unfolding lookup retrieved
create_volume_intercepted-Sees_example =
    create_volume_intercepted-Sees sidecar echo asked world (refl, (refl, tt))
