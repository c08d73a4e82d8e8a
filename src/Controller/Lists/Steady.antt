-- ===== src/Controller/Lists/Steady.antt =====
-- The listing of arrays that do not change.
use test_powerstore_automati.Base.{◌≡◌, refl, none, List, [], ◌∷◌, ◌++◌, map, String}
use mathlib.Core.List.{append-nil, append_assoc}
use test_powerstore_automati.Outcome.{ok}
use test_powerstore_automati.Client.{Client, Request, Response, get_volumes, list_fs}
use test_powerstore_automati.Client.Monad.{World, asked}
use test_powerstore_automati.Arrays.{PowerStoreArray}
use test_powerstore_automati.Controller.Lists.{
  CsiVolume, get_csi_volume, collect_volumes, collect_filesystems,
}

-- An array with the same answers at all times, none of them an error.
abbrev pub steady : (String → (r : Request) → Response r) → Client
steady answer h connection r = record { value = answer connection r; error = none }

-- The volumes and the filesystems that the arrays have.
module _ (answer : String → (r : Request) → Response r) where
  abbrev pub all_volumes : List PowerStoreArray → List CsiVolume
  all_volumes [] = []
  all_volumes (arr ∷ arrays) =
      map (λ vol. get_csi_volume vol.id vol.size) (answer arr.connection get_volumes)
      ++ all_volumes arrays

  abbrev pub all_filesystems : List PowerStoreArray → List CsiVolume
  all_filesystems [] = []
  all_filesystems (arr ∷ arrays) =
      map (λ f. get_csi_volume f.id f.size_total) (answer arr.connection list_fs)
      ++ all_filesystems arrays

  -- The calls that a listing makes.
  abbrev pub listed : Request → List PowerStoreArray → World → World
  listed r [] w = w
  listed r (arr ∷ arrays) w = listed r arrays (asked arr.connection r w)

  pub collect_volumes-steady :
      (arrays : List PowerStoreArray) (so_far : List CsiVolume) (w : World)
      → collect_volumes (steady answer) arrays so_far w
        ≡ (ok (so_far ++ all_volumes arrays), listed get_volumes arrays w)
  unfolding collect_volumes
  collect_volumes-steady [] so_far w = rw append-nil refl
  collect_volumes-steady (arr ∷ arrays) so_far w =
      rw (collect_volumes-steady arrays (so_far ++ found) (asked arr.connection get_volumes w))
        (rw append_assoc refl)
    where
      found : List CsiVolume
      found = map (λ vol. get_csi_volume vol.id vol.size) (answer arr.connection get_volumes)

  pub collect_filesystems-steady :
      (arrays : List PowerStoreArray) (so_far : List CsiVolume) (w : World)
      → collect_filesystems (steady answer) arrays so_far w
        ≡ (ok (so_far ++ all_filesystems arrays), listed list_fs arrays w)
  unfolding collect_filesystems
  collect_filesystems-steady [] so_far w = rw append-nil refl
  collect_filesystems-steady (arr ∷ arrays) so_far w =
      rw (collect_filesystems-steady arrays (so_far ++ found) (asked arr.connection list_fs w))
        (rw append_assoc refl)
    where
      found : List CsiVolume
      found = map (λ f. get_csi_volume f.id f.size_total) (answer arr.connection list_fs)
