-- ===== src/Arrays/Handle/RoundTrip.antt =====
-- Handles as `CreateVolume` prints them are parsed back.
use test_powerstore_automati.Base.{
  ◌≡◌, refl, ◌∙◌, ap, none, [], ◌∷◌, String, ◌<>◌, Option, Lacks, split, split-Lacks,
  split-join_text, Lacks-append, arith, is_empty,
}
use Prim.Native.Char.{Char}
use Prim.Native.String.compare
use mathlib.Core.Bool.{false}
use text.Mathlib.TextLemmas.{nil-append, cons-append}
use test_powerstore_automati.Outcome.{ok}
use test_powerstore_automati.Client.{Client}
use test_powerstore_automati.Client.Monad.{World}
use test_powerstore_automati.Arrays.{Arrays}
use test_powerstore_automati.Arrays.Handle.{
  VolumeHandle, VolumeCapability, parse_volume_id, parse_parts, parse_local, parse_remote,
  parse_parts, global_id_of,
}
use test_powerstore_automati.Ip.{first_ip}

-- `volumeResponse.VolumeId + "/" + arr.GetGlobalID() + "/" + protocol + metroVolumeIDSuffix`
abbrev pub print_local : VolumeHandle → String
print_local h = h.local_uuid <> ("/" <> (h.local_array_global_id <> ("/" <> h.protocol)))

abbrev pub print_handle : VolumeHandle → String
print_handle h = print_local h <> (":" <> (h.remote_uuid <> ("/" <> h.remote_array_global_id)))

-- The parts hold no separator, and the Global ID is no IP.
pub record IsPrintable (h : VolumeHandle) : Type 0 where
  pub uuid_slash : Lacks b'/' h.local_uuid
  pub uuid_colon : Lacks b':' h.local_uuid
  pub id_slash : Lacks b'/' h.local_array_global_id
  pub id_colon : Lacks b':' h.local_array_global_id
  pub protocol_slash : Lacks b'/' h.protocol
  pub protocol_colon : Lacks b':' h.protocol
  pub remote_slash : Lacks b'/' h.remote_uuid
  pub remote_colon : Lacks b':' h.remote_uuid
  pub remote_id_slash : Lacks b'/' h.remote_array_global_id
  pub remote_id_colon : Lacks b':' h.remote_array_global_id
  pub id_no_ip : first_ip h.local_array_global_id ≡ none

split-local :
    (h : VolumeHandle)
    → IsPrintable h
    → split b'/' (print_local h) ≡ h.local_uuid ∷ h.local_array_global_id ∷ h.protocol ∷ []
split-local h p =
    split-join_text b'/' _ h.local_uuid _ refl p.uuid_slash
    ∙ ap (λ l. h.local_uuid ∷ l)
        (split-join_text b'/' _ h.local_array_global_id _ refl p.id_slash
          ∙ ap (λ l. h.local_array_global_id ∷ l) (split-Lacks b'/' h.protocol p.protocol_slash))

local-Lacks : (h : VolumeHandle) → IsPrintable h → Lacks b':' (print_local h)
local-Lacks h p = Lacks-append b':' h.local_uuid _ p.uuid_colon (
    Lacks-append b':' "/" _ (cc, tt)
      (Lacks-append b':' h.local_array_global_id _ p.id_colon
        (Lacks-append b':' "/" _ (cc, tt) p.protocol_colon)))

not_empty : (s t : String) (c : Char) → is_empty (s <> ((String.◌∷◌ c "") <> t)) ≡ false
not_empty String.[] t c = rw (nil-append, cons-append, compare.cons-nil)
not_empty (String.◌∷◌ d s) t c = rw (cons-append d s _, compare.cons-nil)

pub print_local-not_empty : (h : VolumeHandle) → is_empty (print_local h) ≡ false
print_local-not_empty h = not_empty h.local_uuid _ _

not_empty_handle : (h : VolumeHandle) → is_empty (print_handle h) ≡ false
not_empty_handle h = not_empty (print_local h) _ _

remote-Lacks :
    (h : VolumeHandle)
    → IsPrintable h
    → Lacks b':' (h.remote_uuid <> ("/" <> h.remote_array_global_id))
remote-Lacks h p =
    Lacks-append b':' h.remote_uuid _ p.remote_colon
      (Lacks-append b':' "/" _ (cc, tt) p.remote_id_colon)

split-remote :
    (h : VolumeHandle)
    → IsPrintable h
    → split b'/' (h.remote_uuid <> ("/" <> h.remote_array_global_id))
      ≡ h.remote_uuid ∷ h.remote_array_global_id ∷ []
split-remote h p =
    split-join_text b'/' _ h.remote_uuid _ refl p.remote_slash
    ∙ ap (λ l. h.remote_uuid ∷ l) (split-Lacks b'/' _ p.remote_id_slash)

global_id_of-id :
    (s : Arrays) (h : VolumeHandle)
    → IsPrintable h
    → global_id_of s h.local_array_global_id ≡ h.local_array_global_id
unfolding global_id_of
global_id_of-id s h p = rw (p.id_no_ip, global_id_of)

module _ (c : Client) (s : Arrays) (vc : Option VolumeCapability) (h : VolumeHandle)
    (w : World) where
  -- A handle of a volume without a remote one, whose parts hold no separator and whose Global ID
  -- holds no IP, is parsed to its parts, and nothing is asked of an array.
  pub parse_volume_id-print_local :
      IsPrintable h
      → h.remote_uuid ≡ ""
      → h.remote_array_global_id ≡ ""
      → parse_volume_id c s (print_local h) vc w ≡ (ok h, w)
  unfolding parse_volume_id parse_parts parse_local parse_remote
  parse_volume_id-print_local p e f =
      rw
        (
          not_empty h.local_uuid _ _,
          split-Lacks b':' (print_local h) (local-Lacks h p),
          split-local h p,
          global_id_of-id s h p,
        )
        (ground arith)

  -- A metro handle, whose parts hold no separator and whose Global ID holds no IP, is parsed to
  -- its parts, and nothing is asked of an array.
  pub parse_volume_id-print_handle :
      IsPrintable h → parse_volume_id c s (print_handle h) vc w ≡ (ok h, w)
  unfolding parse_volume_id parse_parts parse_local parse_remote
  parse_volume_id-print_handle p =
      rw
        (
          not_empty_handle h,
          split-join_text b':' _ (print_local h) _ refl (local-Lacks h p),
          split-Lacks b':' (h.remote_uuid <> ("/" <> h.remote_array_global_id)) (remote-Lacks h p),
          split-local h p,
          split-remote h p,
          global_id_of-id s h p,
        )
        (ground arith)
