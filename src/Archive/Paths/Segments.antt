-- ===== src/Archive/Paths/Segments.antt =====
-- Which names of archive entries `shouldAutostripArchiveZipEntry` is true of.
use evukb.Common.{
  ℕ, List, [], ◌∷◌, ◌≡◌, ◌≢◌, refl, sym, ap, ◌∙◌, Bool, true, false, ◌&&◌, ◌||◌, ◌==◌, arith, any,
  All, Bool-cases, inl, inr, if◌then◌else◌,
}
use evukb.Common.Text.{Text, codes, text_eq, split, push_head, replace_char, drop_leading}
use evukb.Common.Text.Split.{split-ne-nil}
use evukb.Storage.Posix.{slash}
use evukb.Storage.PathSafety.{backslash}
use evukb.Archive.Paths.{cleaned_name, nonempty, segments, should_autostrip_archive_zip_entry}

-- A slash or a backslash.
abbrev pub is_separator : ℕ → Bool
is_separator c = (c == 47) || (c == 92)

-- The text begins with the word, and ends or is separated behind it.
abbrev pub is_first : Text → Text → Bool
is_first [] [] = true
is_first [] (c ∷ t) = is_separator c
is_first (x ∷ word) [] = false
is_first (x ∷ word) (c ∷ t) = (x == c) && is_first word t

-- The word stands somewhere in the text with nothing but separators beside it, where the flag says
-- that the text itself begins behind a separator.
abbrev pub stands_in : Text → Bool → Text → Bool
stands_in word start [] = false
stands_in word start (c ∷ t) = (start && is_first word (c ∷ t)) || stands_in word (is_separator c) t

-- One of the names between the separators of the text is ".git".
abbrev pub names_git : Text → Bool
names_git t = stands_in (codes ".git") true t

abbrev clean : Text → Text
clean t = replace_char backslash slash t

abbrev is_head : Text → List Text → Bool
is_head word [] = false
is_head word (p ∷ ps) = text_eq word p

abbrev in_tail : Text → List Text → Bool
in_tail word [] = false
in_tail word (p ∷ ps) = any (text_eq word) ps

any-parts :
    (word : Text) (ps : List Text) → any (text_eq word) ps ≡ (is_head word ps || in_tail word ps)
any-parts word [] = refl
any-parts word (p ∷ ps) = refl

is_head-push_head :
    (x c : ℕ) (word : Text) (ps : List Text)
    → ps ≢ []
    → is_head (x ∷ word) (push_head c ps) ≡ ((x == c) && is_head word ps)
unfolding text_eq
is_head-push_head x c word [] n = absurd (n refl)
is_head-push_head x c word (p ∷ ps) n = refl

in_tail-push_head :
    (c : ℕ) (word : Text) (ps : List Text) → in_tail word (push_head c ps) ≡ in_tail word ps
in_tail-push_head c word [] = refl
in_tail-push_head c word (p ∷ ps) = refl

is_head-nil : (c : ℕ) (ps : List Text) → is_head [] (push_head c ps) ≡ false
unfolding text_eq
is_head-nil c [] = refl
is_head-nil c (p ∷ ps) = refl

split-clean_separator :
    (c : ℕ) (t : Text)
    → is_separator c ≡ true
    → split slash (clean (c ∷ t)) ≡ [] ∷ split slash (clean t)
unfolding split replace_char
split-clean_separator c t e = ground arith

split-clean_other :
    (c : ℕ) (t : Text)
    → is_separator c ≡ false
    → split slash (clean (c ∷ t)) ≡ push_head c (split slash (clean t))
unfolding split replace_char
split-clean_other c t e = ground arith

-- No separator in the word.
abbrev IsName : Text → Type 0
IsName word = All (λ x. is_separator x ≡ false) word

is_first-separator :
    (x : ℕ) (word : Text) (c : ℕ) (t : Text)
    → is_separator x ≡ false
    → is_separator c ≡ true
    → is_first (x ∷ word) (c ∷ t) ≡ false
is_first-separator x word c t n y = ground arith

is_head-split :
    (word t : Text) → IsName word → is_head word (split slash (clean t)) ≡ is_first word t
is_head-split [] [] h = unfold split replace_char text_eq in refl
is_head-split [] (c ∷ t) h = elim (Bool-cases (is_separator c)) [
  | inl y ↦ rw (split-clean_separator c t y) (unfold text_eq in sym y)
  | inr n ↦ rw (split-clean_other c t n) (is_head-nil c (split slash (clean t)) ∙ sym n)
]
is_head-split (x ∷ word) [] h = unfold split replace_char text_eq in refl
is_head-split (x ∷ word) (c ∷ t) (n, h) = elim (Bool-cases (is_separator c)) [
  | inl y ↦
      rw (split-clean_separator c t y) (unfold text_eq in sym (is_first-separator x word c t n y))
  | inr n ↦ rw (split-clean_other c t n) (
      is_head-push_head x c word (split slash (clean t)) (split-ne-nil slash (clean t))
      ∙ ap (λ b. (x == c) && b) (is_head-split word t h))
]

module _ (x : ℕ) (word : Text) (name : IsName (x ∷ word)) where
  -- The parts that are the word, with the first part and without it.
  abbrev Found : Text → Type 0
  Found t =
      (any (text_eq (x ∷ word)) (split slash (clean t)) ≡ stands_in (x ∷ word) true t)
      × (in_tail (x ∷ word) (split slash (clean t)) ≡ stands_in (x ∷ word) false t)

  split-Found : (t : Text) → Found t
  unfolding text_eq
  split-Found [] = unfold split replace_char in (refl, refl)
  split-Found (c ∷ t) = elim (Bool-cases (is_separator c)) [
    | inl y ↦
        let (all, tail) = split-Found t in
        rw (split-clean_separator c t y)
          ((ground (arith, all, is_first-separator x word c t name.0 y), ground (arith, all)))
    | inr n ↦
        let (all, tail) = split-Found t in
        let first = is_head-split (x ∷ word) (c ∷ t) name in
        let rest =
          ap (in_tail (x ∷ word)) (split-clean_other c t n)
          ∙ in_tail-push_head c (x ∷ word) (split slash (clean t))
          ∙ tail in
        (
          any-parts (x ∷ word) (split slash (clean (c ∷ t))) ∙ ground (arith, first, rest),
          ground (arith, rest),
        )
  ]

any-nonempty :
    (x : ℕ) (word : Text) (ps : List Text)
    → any (text_eq (x ∷ word)) (nonempty ps) ≡ any (text_eq (x ∷ word)) ps
unfolding text_eq
any-nonempty x word [] = refl
any-nonempty x word ([] ∷ ps) = any-nonempty x word ps
any-nonempty x word ((c ∷ p) ∷ ps) = ground (arith, any-nonempty x word ps)

any-drop_leading :
    (x : ℕ) (word t : Text)
    → any (text_eq (x ∷ word)) (split slash (drop_leading (λ c. c == slash) t))
      ≡ any (text_eq (x ∷ word)) (split slash t)
unfolding drop_leading split text_eq
any-drop_leading x word [] = refl
any-drop_leading x word (c ∷ t) = elim (Bool-cases (c == slash)) [
  | inl y ↦ rw y (any-drop_leading x word t)
  | inr n ↦
      ap
        (λ b.
          any (text_eq (x ∷ word))
            (split slash (if b then drop_leading (λ d. d == slash) t else c ∷ t)))
        n
]

-- Stripping looks for a name ".git" between slashes and backslashes.
pub should_autostrip-names_git :
    (name : Text) → should_autostrip_archive_zip_entry name ≡ names_git name
unfolding should_autostrip_archive_zip_entry segments cleaned_name
should_autostrip-names_git name =
    any-nonempty 46 (codes "git") (split slash (drop_leading (λ c. c == slash) (clean name)))
    ∙ any-drop_leading 46 (codes "git") (clean name)
    ∙ (split-Found 46 (codes "git") (refl, (refl, (refl, (refl, tt)))) name).0
