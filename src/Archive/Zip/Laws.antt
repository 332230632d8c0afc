-- ===== src/Archive/Zip/Laws.antt =====
-- The reader of the central directory never reads past the end of the file.
use evukb.Common.{
  ℕ, zero, suc, ◌+◌, ◌-◌, ◌≤◌, [], ◌∷◌, ◌≡◌, ◌≢◌, refl, Bool, true, false, not, ◌||◌, ltb, ◌==◌,
  if◌then◌else◌, length, Option, none, some, arith,
}
use evukb.Archive.Limits.{Bytes, ArchiveImportLimits}
use evukb.Archive.Zip.{
  drop, central_directory_signature, get_uint16, get_uint32, head_uint16, head_uint32, find_eocd,
  scan_steps, read_entries, read_directory, and_then, read_zip_declared_totals, ZipDeclaredTotals,
  assert_zip_declared_sizes_within_limits,
}

-- A computation in which no read throws.
abbrev pub Reads : {A : Type 0} → Option A → Type 0
Reads none = ⊥
Reads (some _) = Unit {0}

length-drop : (n : ℕ) (bytes : Bytes) → length (drop n bytes) ≡ length bytes - n
unfolding drop
length-drop zero bytes = ground arith
length-drop (suc n) [] = ground arith
length-drop (suc n) (_ ∷ bytes) = ground (arith, length-drop n bytes)

head_uint32-Reads : (bytes : Bytes) → 4 ≤ length bytes → Reads (head_uint32 bytes)
head_uint32-Reads [] h = ground arith
head_uint32-Reads (_ ∷ []) h = ground arith
head_uint32-Reads (_ ∷ _ ∷ []) h = ground arith
head_uint32-Reads (_ ∷ _ ∷ _ ∷ []) h = ground arith
head_uint32-Reads (_ ∷ _ ∷ _ ∷ _ ∷ _) h = tt

head_uint16-Reads : (bytes : Bytes) → 2 ≤ length bytes → Reads (head_uint16 bytes)
head_uint16-Reads [] h = ground arith
head_uint16-Reads (_ ∷ []) h = ground arith
head_uint16-Reads (_ ∷ _ ∷ _) h = tt

get_uint32-Reads : (bytes : Bytes) (n : ℕ) → n + 4 ≤ length bytes → Reads (get_uint32 bytes n)
unfolding get_uint32
get_uint32-Reads bytes n h = head_uint32-Reads (drop n bytes) (ground (arith, length-drop n bytes))

get_uint16-Reads : (bytes : Bytes) (n : ℕ) → n + 2 ≤ length bytes → Reads (get_uint16 bytes n)
unfolding get_uint16
get_uint16-Reads bytes n h = head_uint16-Reads (drop n bytes) (ground (arith, length-drop n bytes))

and_then-Reads :
    {A B : Type 0} (o : Option A) (f : A → Option B)
    → Reads o
    → ((a : A) → o ≡ some a → Reads (f a))
    → Reads (and_then o f)
and_then-Reads none f h k = absurd h
and_then-Reads (some a) f h k = k a refl

if-Reads :
    {A : Type 0} (b : Bool) (x y : Option A)
    → (b ≡ true → Reads x)
    → (b ≡ false → Reads y)
    → Reads (if b then x else y)
if-Reads true x y h k = h refl
if-Reads false x y h k = k refl

-- An end record that is found lies within the file.
abbrev Within : Bytes → Option (Option ℕ) → Type 0
Within bytes none = ⊥
Within bytes (some none) = Unit {0}
Within bytes (some (some eocd)) = eocd + 22 ≤ length bytes

find_eocd-Within :
    (bytes : Bytes) (offset steps : ℕ)
    → offset + 22 ≤ length bytes
    → Within bytes (find_eocd bytes offset steps)
unfolding find_eocd
find_eocd-Within bytes offset zero h = ground (arith, get_uint32-Reads bytes offset)
find_eocd-Within bytes offset (suc steps) h =
    ground (arith, get_uint32-Reads bytes offset, find_eocd-Within bytes (offset - 1) steps)

read_entries-Reads :
    (bytes : Bytes) (n offset : ℕ) (totals : ZipDeclaredTotals)
    → Reads (read_entries bytes offset totals n)
unfolding read_entries
read_entries-Reads bytes zero offset totals = tt
read_entries-Reads bytes (suc n) offset totals =
    if-Reads (ltb (length bytes) (offset + 46)) _ _ (λ _. tt)
      (λ h.
        and_then-Reads (get_uint32 bytes offset) _ (ground (arith, get_uint32-Reads bytes offset))
          (λ signature _.
            if-Reads (not (signature == central_directory_signature)) _ _ (λ _. tt)
              (λ _.
                and_then-Reads (get_uint32 bytes (offset + 24)) _
                  (ground (arith, get_uint32-Reads bytes (offset + 24)))
                  (λ size _.
                    if-Reads (size == 0xffffffff) _ _ (λ _. tt)
                      (λ _.
                        and_then-Reads (get_uint16 bytes (offset + 28)) _
                          (ground (arith, get_uint16-Reads bytes (offset + 28)))
                          (λ name _.
                            and_then-Reads (get_uint16 bytes (offset + 30)) _
                              (ground (arith, get_uint16-Reads bytes (offset + 30)))
                              (λ extra _.
                                and_then-Reads (get_uint16 bytes (offset + 32)) _
                                  (ground (arith, get_uint16-Reads bytes (offset + 32)))
                                  (λ comment _. read_entries-Reads bytes n _ _))))))))

read_directory-Reads :
    (bytes : Bytes) (eocd : ℕ) → eocd + 22 ≤ length bytes → Reads (read_directory bytes eocd)
unfolding read_directory
read_directory-Reads bytes eocd h =
    and_then-Reads (get_uint16 bytes (eocd + 10)) _
      (get_uint16-Reads bytes (eocd + 10) (omega arith))
      (λ total _.
        and_then-Reads (get_uint32 bytes (eocd + 16)) _
          (get_uint32-Reads bytes (eocd + 16) (omega arith))
          (λ directory _.
            if-Reads (total == 0xffff || directory == 0xffffffff) _ _ (λ _. tt)
              (λ _. read_entries-Reads bytes total directory _)))

found-Reads :
    (bytes : Bytes) (found : Option (Option ℕ))
    → Within bytes found
    → Reads (
        and_then found
          (λ place. elim place [ none ↦ some none | some eocd ↦ read_directory bytes eocd ]))
found-Reads bytes none h = h
found-Reads bytes (some none) h = tt
found-Reads bytes (some (some eocd)) h = read_directory-Reads bytes eocd h

read_zip_declared_totals-Reads : (bytes : Bytes) → Reads (read_zip_declared_totals bytes)
unfolding read_zip_declared_totals
read_zip_declared_totals-Reads bytes =
    if-Reads (ltb (length bytes) 22) _ _ (λ _. tt)
      (λ h.
        found-Reads bytes (find_eocd bytes (length bytes - 22) (scan_steps bytes))
          (find_eocd-Within bytes (length bytes - 22) (scan_steps bytes) (ground arith)))

-- Whatever the bytes of an upload are, reading its declared sizes never throws a RangeError: each
-- read of the end record and of the central directory lies within the file, so the check either
-- passes or throws the limit error.
pub assert_zip_declared_sizes_within_limits_total :
    (bytes : Bytes) (limits : ArchiveImportLimits)
    → assert_zip_declared_sizes_within_limits bytes limits ≢ none
unfolding assert_zip_declared_sizes_within_limits
assert_zip_declared_sizes_within_limits_total bytes limits =
    ground (arith, read_zip_declared_totals-Reads bytes)
