-- ===== src/Size/Laws.antt =====
-- The size checks against a direct description of the accepted sizes.
use test_powerstore_automati.Base.{
  ℕ, zero, suc, ◌+◌, ◌*◌, ◌/◌, ◌%◌, ◌^◌, ◌≤◌, ◌<◌, ◌≡◌, refl, sym, ◌∙◌, Bool, ltb, true, false,
  ◌&&◌, leb, arith, if◌then◌else◌,
}
use test_powerstore_automati.Base.Int64.{ℤ, pos, negsuc, lt_ℤ, IsInt64}
use native.Mathlib.Decide.{dec_lt}
use test_powerstore_automati.Outcome.{Outcome, ok, fail, out_of_range, ◌>>◌}
use test_powerstore_automati.Size.{
  check_size_scsi, check_size_nfs, round_up, or_size, volume_size_validation, min_volume_size_bytes,
  max_volume_size_bytes, min_filesystem_size_bytes,
}

-- The requested number of bytes, or the default if none are requested.
abbrev pub or_default_size : ℕ → ℕ → ℕ
or_default_size zero d = d
or_default_size (suc n) d = suc n

-- The least multiple of 8192 that is not below n.
abbrev pub next_multiple : ℕ → ℕ
next_multiple n = (n + 8191) / 8192 * 8192

round_up-pos : (n : ℕ) → next_multiple n < 2 ^ 63 → round_up (pos n) ≡ pos (next_multiple n)
round_up-pos n h = ground arith

-- Above the largest multiple the sum wraps to a negative number.
round_up-wraps :
    (n : ℕ) → n < 2 ^ 63 → 2 ^ 63 ≤ next_multiple n → lt_ℤ (round_up (pos n)) (pos 0) ≡ true
round_up-wraps n h k = ground arith

size_validation-pos :
    (n hi : ℕ)
    → volume_size_validation (pos n) (pos hi)
      ≡ (if leb n hi && leb hi max_volume_size_bytes then ok tt else fail out_of_range)
unfolding volume_size_validation
size_validation-pos n hi = ground arith

size_validation-negative :
    (s t : ℤ) → lt_ℤ s (pos 0) ≡ true → volume_size_validation s t ≡ fail out_of_range
unfolding volume_size_validation
size_validation-negative s t h = rw h

size_validation-negative_limit :
    (s : ℤ) (l : ℕ) → volume_size_validation s (negsuc l) ≡ fail out_of_range
unfolding volume_size_validation
size_validation-negative_limit (pos n) l = ground arith
size_validation-negative_limit (negsuc n) l = refl

-- What `CheckSize` answers for capacity ranges that are not negative.
abbrev pub size_answer : ℕ → ℕ → Outcome ℤ
size_answer required limit =
    let size = next_multiple (or_default_size required min_volume_size_bytes) in
    let most = or_default_size limit max_volume_size_bytes in
    if leb size most && leb most max_volume_size_bytes then ok (pos size) else fail out_of_range

or_size-pos : (n d : ℕ) → or_size (pos n) d ≡ pos (or_default_size n d)
or_size-pos zero d = refl
or_size-pos (suc n) d = refl

or_default_size-lt : (n d : ℕ) → n < 2 ^ 63 → d < 2 ^ 63 → or_default_size n d < 2 ^ 63
or_default_size-lt zero d h k = k
or_default_size-lt (suc n) d h k = h

checked :
    (n hi : ℕ)
    → n < 2 ^ 63
    → hi < 2 ^ 63
    → (volume_size_validation (round_up (pos n)) (pos hi) >> ok (round_up (pos n))) ≡ (
        if leb (next_multiple n) hi && leb hi max_volume_size_bytes
        then ok (pos (next_multiple n))
        else fail out_of_range)
checked n hi h k = elim (dec_lt (next_multiple n) (2 ^ 63)) [
  | yes p ↦ rw (round_up-pos n p, size_validation-pos) (ground arith)
  | no p ↦
      rw (size_validation-negative (round_up (pos n)) (pos hi) (round_up-wraps n h (omega arith)))
        (ground arith)
]

check_size_scsi-eq :
    (required limit : ℕ)
    → required < 2 ^ 63
    → limit < 2 ^ 63
    → check_size_scsi (pos required) (pos limit) ≡ size_answer required limit
unfolding check_size_scsi
check_size_scsi-eq required limit h k =
    rw (or_size-pos required min_volume_size_bytes, or_size-pos limit max_volume_size_bytes)
      (checked _ _ (or_default_size-lt required _ h (omega arith))
        (or_default_size-lt limit _ k (omega arith)))

-- The same for any capacity range: a negative bound is out of range.
abbrev pub int64_answer : ℤ → ℤ → Outcome ℤ
int64_answer (pos required) (pos limit) = size_answer required limit
int64_answer _ _ = fail out_of_range

-- For a required size and a limit of 64 bits, where 0 stands for 1 Mi and for the largest size, the
-- check of a block volume answers the least multiple of 8192 that is not below the required size;
-- it is out of range if a bound is negative, the limit is above the largest size, or the multiple
-- is above the limit.
pub check_size_scsi-eq-answer :
    (required limit : ℤ)
    → IsInt64 required
    → IsInt64 limit
    → check_size_scsi required limit ≡ int64_answer required limit
unfolding check_size_scsi
check_size_scsi-eq-answer (pos r) (pos l) h k = check_size_scsi-eq r l h k
check_size_scsi-eq-answer (pos r) (negsuc l) h k =
    rw (size_validation-negative_limit (round_up (or_size (pos r) min_volume_size_bytes)) l)
check_size_scsi-eq-answer (negsuc r) (pos l) h k = refl
check_size_scsi-eq-answer (negsuc r) (negsuc l) h k = refl

int64_answer-ok :
    (required n : ℕ) (limit : ℤ)
    → int64_answer (pos required) limit ≡ ok (pos n)
    → (n % 8192 ≡ 0) × (required ≤ n) × (n ≤ max_volume_size_bytes)
int64_answer-ok zero n (pos l) h = ground arith
int64_answer-ok (suc r) n (pos l) h = ground arith
int64_answer-ok r n (negsuc l) h = cc

accepted :
    (required limit size : ℤ)
    → int64_answer required limit ≡ ok size
    → (n : ℕ) × (size ≡ pos n)
      × (n % 8192 ≡ 0)
      × (0 < n)
      × (n ≤ max_volume_size_bytes)
      × (lt_ℤ size required ≡ false)
accepted (pos zero) (pos l) (pos n) h =
    (n, refl, ground arith, ground arith, ground arith, ground arith)
accepted (pos (suc r)) (pos l) (pos n) h =
    (n, refl, ground arith, ground arith, ground arith, ground arith)
accepted (pos r) (pos l) (negsuc n) h = ground arith
accepted (pos r) (negsuc l) size h = cc
accepted (negsuc r) limit size h = cc

next_default-lt :
    (n : ℕ)
    → n + 8192 ≤ min_filesystem_size_bytes
    → next_multiple (or_default_size n min_volume_size_bytes) < min_filesystem_size_bytes
next_default-lt zero h = omega arith
next_default-lt (suc n) h = omega arith

-- An accepted block volume size is a multiple of 8192, holds what was required, is positive and
-- does not pass 256 TB, for a required size and a limit of 64 bits.
pub check_size_scsi-ok :
    (required limit size : ℤ)
    → IsInt64 required
    → IsInt64 limit
    → check_size_scsi required limit ≡ ok size
    → (n : ℕ) × (size ≡ pos n)
      × (n % 8192 ≡ 0)
      × (0 < n)
      × (n ≤ max_volume_size_bytes)
      × (lt_ℤ size required ≡ false)
check_size_scsi-ok required limit size h k e =
    accepted required limit size (sym (check_size_scsi-eq-answer required limit h k) ∙ e)

multiple-lt :
    (n d : ℕ) → n + 8192 < 2 ^ 63 → d + 8192 < 2 ^ 63 → next_multiple (or_default_size n d) < 2 ^ 63
multiple-lt zero d h k = ground arith
multiple-lt (suc n) d h k = ground arith

-- What `CheckSize` of filesystems answers: with automatic rounding the least size of a filesystem
-- for everything below it, whatever the limit.
abbrev pub nfs_answer : (required limit : ℕ) → (auto_round_off : Bool) → Outcome ℤ
nfs_answer required limit auto_round_off =
    if auto_round_off
      && ltb (next_multiple (or_default_size required min_volume_size_bytes))
          min_filesystem_size_bytes
    then ok (pos min_filesystem_size_bytes)
    else size_answer required limit

-- For a required size and a limit that are not negative, below 2^63 - 8192 and below 2^63, where 0
-- stands for 1 Mi and for the largest size, the check of a filesystem answers 1.5 Gi, even above the
-- limit, if automatic rounding is on and the least multiple of 8192 that is not below the required
-- size is below 1.5 Gi; and otherwise that multiple, or out of range if the limit is above the largest
-- size or the multiple above the limit.
pub check_size_nfs-eq-answer :
    (required limit : ℕ) (auto_round_off : Bool)
    → required + 8192 < 2 ^ 63
    → limit < 2 ^ 63
    → check_size_nfs (pos required) (pos limit) auto_round_off
      ≡ nfs_answer required limit auto_round_off
unfolding check_size_nfs
check_size_nfs-eq-answer required limit auto_round_off h k =
    rw
      (
        or_size-pos required min_volume_size_bytes,
        or_size-pos limit max_volume_size_bytes,
        checked (or_default_size required min_volume_size_bytes)
            (or_default_size limit max_volume_size_bytes)
            (or_default_size-lt required _ (omega (arith, h)) (omega arith))
            (or_default_size-lt limit _ k (omega arith)),
        round_up-pos (or_default_size required min_volume_size_bytes)
            (multiple-lt required min_volume_size_bytes h (omega arith)),
      )
      refl
