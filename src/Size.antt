-- ===== src/Size.antt =====
-- Name and size checks of pkg/controller/base.go and creator.go.
pub mod Laws
use Prim.Native.String.{count}
use test_powerstore_automati.Base.{
  ℕ, zero, ◌+◌, ◌-◌, ◌*◌, ◌%◌, Bool, ◌&&◌, ◌||◌, String, is_empty, ltb, if◌then◌else◌,
}
use test_powerstore_automati.Base.Int64.{ℤ, pos, negsuc, ◌+ℤ◌, lt_ℤ}
use test_powerstore_automati.Outcome.{Outcome, ok, fail, invalid_argument, out_of_range, ◌>>◌}

abbrev pub min_volume_size_bytes : ℕ
min_volume_size_bytes = 1048576

abbrev pub min_filesystem_size_bytes : ℕ
min_filesystem_size_bytes = 1610612736

abbrev pub max_volume_size_bytes : ℕ
max_volume_size_bytes = 1099511627776 * 256

abbrev pub volume_size_multiple : ℕ
volume_size_multiple = 8192

abbrev pub max_volume_name_length : ℕ
max_volume_name_length = 128

unfoldable pub volume_name_validation : String → Outcome (Unit {0})
volume_name_validation name =
    if is_empty name
    then fail invalid_argument
    else if ltb max_volume_name_length (count name)
    then fail invalid_argument
    else ok tt

unfoldable pub volume_size_validation : ℤ → ℤ → Outcome (Unit {0})
volume_size_validation min_size max_size =
    if lt_ℤ min_size (pos 0) || lt_ℤ max_size (pos 0)
    then fail out_of_range
    else if lt_ℤ max_size min_size
    then fail out_of_range
    else if lt_ℤ (pos max_volume_size_bytes) max_size
    then fail out_of_range
    else ok tt

-- `mod := minSize % VolumeSizeMultiple; if mod > 0 { … }`: Go's remainder of a negative number is
-- not positive, and then nothing is added.
abbrev round_up : ℤ → ℤ
round_up (negsuc n) = negsuc n
round_up (pos n) =
    if ltb 0 (n % volume_size_multiple)
    then pos n +ℤ pos (volume_size_multiple - n % volume_size_multiple)
    else pos n

abbrev pub or_size : ℤ → ℕ → ℤ
or_size (pos zero) d = pos d
or_size s d = s

-- `CheckSize` of `SCSICreator`, from the required and the limit bytes of the capacity range.
unfoldable pub check_size_scsi : ℤ → ℤ → Outcome ℤ
unfolding volume_size_validation
check_size_scsi required limit =
    let min_size = round_up (or_size required min_volume_size_bytes) in
    let max_size = or_size limit max_volume_size_bytes in
    volume_size_validation min_size max_size >> ok min_size

-- `CheckSize` of `NfsCreator`.
unfoldable pub check_size_nfs : ℤ → ℤ → Bool → Outcome ℤ
unfolding volume_size_validation
check_size_nfs required limit auto_round_off =
    let min_size = round_up (or_size required min_volume_size_bytes) in
    let max_size = or_size limit max_volume_size_bytes in
    if auto_round_off && lt_ℤ min_size (pos min_filesystem_size_bytes)
    then ok (pos min_filesystem_size_bytes)
    else volume_size_validation min_size max_size >> ok min_size
