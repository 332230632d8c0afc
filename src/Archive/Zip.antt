-- ===== src/Archive/Zip.antt =====
-- packages/kb-core/src/archive/limits.ts: what the central directory of a zip file declares, read
-- before anything is inflated. A read of a `DataView` past its end throws; here it is `none`.
mod Tests
pub mod Laws
use evukb.Common.{
  ℕ, zero, suc, ◌+◌, ◌-◌, ◌*◌, ◌^◌, List, [], ◌∷◌, Bool, true, false, ltb, leb, ◌==◌, ◌||◌, not,
  if◌then◌else◌, length, Option, none, some, Result, ok, err,
}
use evukb.Archive.Limits.{
  Bytes, ArchiveImportLimits, LimitError, too_many_entries, too_many_bytes, implausible_ratio,
}

abbrev pub eocd_min_length : ℕ
eocd_min_length = 22

abbrev pub max_eocd_comment_length : ℕ
max_eocd_comment_length = 0xffff

abbrev pub eocd_signature : ℕ
eocd_signature = 0x06054b50

abbrev pub central_directory_signature : ℕ
central_directory_signature = 0x02014b50

abbrev pub max_archive_compression_ratio : ℕ
max_archive_compression_ratio = 200

abbrev pub compression_ratio_byte_floor : ℕ
compression_ratio_byte_floor = 4 * 1024 * 1024

-- Number.MAX_SAFE_INTEGER
abbrev pub max_safe_integer : ℕ
max_safe_integer = 9007199254740991

-- The bytes from an offset on.
unfoldable pub drop : ℕ → Bytes → Bytes
drop zero bytes = bytes
drop (suc n) [] = []
drop (suc n) (_ ∷ bytes) = drop n bytes

abbrev pub head_uint16 : Bytes → Option ℕ
head_uint16 (a ∷ b ∷ _) = some (a + 256 * b)
head_uint16 _ = none

abbrev pub head_uint32 : Bytes → Option ℕ
head_uint32 (a ∷ b ∷ c ∷ d ∷ _) = some (a + 256 * b + 65536 * c + 16777216 * d)
head_uint32 _ = none

-- view.getUint16(offset, true), view.getUint32(offset, true)
unfoldable pub get_uint16 : Bytes → ℕ → Option ℕ
unfolding drop
get_uint16 bytes offset = head_uint16 (drop offset bytes)

unfoldable pub get_uint32 : Bytes → ℕ → Option ℕ
unfolding drop
get_uint32 bytes offset = head_uint32 (drop offset bytes)

pub record ZipDeclaredTotals : Type 0 where
  pub entry_count : ℕ
  pub total_uncompressed_bytes : ℕ

abbrev pub zip64 : ZipDeclaredTotals
zip64 = record { entry_count = max_safe_integer; total_uncompressed_bytes = max_safe_integer }

-- What a computation with reads gives: nothing when a read throws.
abbrev and_then : {A B : Type 0} → Option A → (A → Option B) → Option B
and_then none f = none
and_then (some a) f = f a

-- The scan for the end record, from `offset` down over `steps` further offsets. The outer option
-- is a read that throws, the inner one an end record that is not found.
unfoldable pub find_eocd : Bytes → ℕ → ℕ → Option (Option ℕ)
unfolding get_uint32
find_eocd bytes offset zero =
    and_then (get_uint32 bytes offset)
      (λ signature. some (if signature == eocd_signature then some offset else none))
find_eocd bytes offset (suc steps) =
    let rest = find_eocd bytes (offset - 1) steps in
    and_then (get_uint32 bytes offset)
      (λ signature. if signature == eocd_signature then some (some offset) else rest)

-- The number of offsets below the first that the scan looks at.
abbrev pub scan_steps : Bytes → ℕ
scan_steps bytes =
    (length bytes - eocd_min_length) - (length bytes - eocd_min_length - max_eocd_comment_length)

-- The loop over the headers of the central directory.
unfoldable pub read_entries : Bytes → ℕ → ZipDeclaredTotals → ℕ → Option (Option ZipDeclaredTotals)
unfolding get_uint32 get_uint16
read_entries bytes offset totals zero = some (some totals)
read_entries bytes offset totals (suc entries) =
    if ltb (length bytes) (offset + 46)
    then some none
    else and_then (get_uint32 bytes offset) (λ signature.
      if not (signature == central_directory_signature)
      then some none
      else and_then (get_uint32 bytes (offset + 24)) (λ size.
        if size == 0xffffffff
        then some (some zip64)
        else and_then (get_uint16 bytes (offset + 28)) (λ name_length.
          and_then (get_uint16 bytes (offset + 30)) (λ extra_length.
            and_then (get_uint16 bytes (offset + 32)) (λ comment_length.
              read_entries bytes (offset + (46 + name_length + extra_length + comment_length))
                (record {
                  entry_count = totals.entry_count + 1;
                  total_uncompressed_bytes = totals.total_uncompressed_bytes + size;
                })
                entries)))))

-- What follows once the end record is found.
unfoldable pub read_directory : Bytes → ℕ → Option (Option ZipDeclaredTotals)
unfolding get_uint32 get_uint16 read_entries
read_directory bytes eocd = and_then (get_uint16 bytes (eocd + 10)) (λ total_entries.
    and_then (get_uint32 bytes (eocd + 16)) (λ directory.
      if total_entries == 0xffff || directory == 0xffffffff
      then some (some zip64)
      else read_entries bytes directory (record { entry_count = 0; total_uncompressed_bytes = 0 })
          total_entries))

-- `some none` is the result null; `none` a RangeError.
unfoldable pub read_zip_declared_totals : Bytes → Option (Option ZipDeclaredTotals)
unfolding find_eocd read_directory
read_zip_declared_totals bytes =
    if ltb (length bytes) eocd_min_length
    then some none
    else and_then (find_eocd bytes (length bytes - eocd_min_length) (scan_steps bytes))
        (λ found. elim found [ none ↦ some none | some eocd ↦ read_directory bytes eocd ])

abbrev pub max : ℕ → ℕ → ℕ
max a b = if leb a b then b else a

abbrev check_totals :
    Bytes → ArchiveImportLimits → Option ZipDeclaredTotals → Result LimitError (Unit {0})
check_totals bytes limits none = ok tt
check_totals bytes limits (some totals) =
    if ltb limits.max_entries totals.entry_count
    then err too_many_entries
    else if ltb limits.max_uncompressed_bytes totals.total_uncompressed_bytes
    then err too_many_bytes
    else if ltb (max (length bytes) compression_ratio_byte_floor * max_archive_compression_ratio)
        totals.total_uncompressed_bytes
    then err implausible_ratio
    else ok tt

-- `none` if a read throws something other than the limit error.
unfoldable pub assert_zip_declared_sizes_within_limits :
    Bytes → ArchiveImportLimits → Option (Result LimitError (Unit {0}))
unfolding read_zip_declared_totals
assert_zip_declared_sizes_within_limits bytes limits =
    and_then (read_zip_declared_totals bytes) (λ totals. some (check_totals bytes limits totals))
