-- ===== src/Sync/Settings/Branch.antt =====
-- Which branch `resolveGitWritebackBranch` chooses.
use evukb.Common.{
  List, [], ◌∷◌, ◌++◌, ◌≡◌, refl, sym, ap, ◌∙◌, ◌≢◌, ◌⊎◌, inl, inr, true, false, Option, none, some,
}
use evukb.Common.Text.{Text, codes, trim}
use evukb.Common.Value.{Value, undefined, string, number, boolean, Fields, get}
use evukb.Sync.Settings.{
  read_trimmed, nonempty_text, parse_corpus_sync_settings, resolve_git_ref,
  resolve_git_writeback_branch, resolve_git_writeback_feature_branch, is_set_true,
  parse_optional_boolean,
}

-- No text with anything but white space.
abbrev pub IsBlank : Value → Type 0
IsBlank v = (t : Text) → v ≡ string t → trim t ≡ []

-- The first of the settings that is a text with more than white space, trimmed, or else "main".
abbrev pub IsFirstGiven : List Value → Text → Type 0
IsFirstGiven [] branch = branch ≡ codes "main"
IsFirstGiven (v ∷ vs) branch =
    ((t : Text) × (v ≡ string t) × (trim t ≢ []) × (branch ≡ trim t))
    ⊎ (IsBlank v × IsFirstGiven vs branch)

-- The feature branch of the corpus if the settings ask for it, else the branch or the ref.
abbrev pub IsChosen : Fields → Text → Text → Type 0
IsChosen settings corpus branch =
    ((get (codes "gitWritebackUseFeatureBranch") settings ≡ boolean true)
      × (branch ≡ codes "evukb/writeback/" ++ corpus))
    ⊎ ((get (codes "gitWritebackUseFeatureBranch") settings ≢ boolean true)
        × IsFirstGiven
            (get (codes "gitWritebackBranch") settings ∷ get (codes "gitRef") settings ∷ []) branch)

-- A value is blank and read as nothing, or it is a text and read trimmed.
abbrev Reading : Value → Option Text → Type 0
Reading v o =
    (IsBlank v × (o ≡ none)) ⊎ ((t : Text) × (v ≡ string t) × (trim t ≢ []) × (o ≡ some (trim t)))

read_trimmed-Reading : (v : Value) → Reading v (read_trimmed v)
unfolding read_trimmed
read_trimmed-Reading (string t) = go (trim t) refl
  where
    go : (r : Text) → trim t ≡ r → Reading (string t) (nonempty_text (trim t))
    go [] e = inl (λ s q. cc (q, e), rw e refl)
    go (c ∷ r) e = inr (t, refl, cc e, ap nonempty_text e ∙ ap some (sym e))
read_trimmed-Reading undefined = inl (λ t e. cc e, refl)
read_trimmed-Reading Value.null = inl (λ t e. cc e, refl)
read_trimmed-Reading (boolean _) = inl (λ t e. cc e, refl)
read_trimmed-Reading (number _) = inl (λ t e. cc e, refl)
read_trimmed-Reading (Value.array _) = inl (λ t e. cc e, refl)
read_trimmed-Reading (Value.object _) = inl (λ t e. cc e, refl)

first_given :
    (branch ref : Value) (b r : Option Text)
    → Reading branch b
    → Reading ref r
    → IsFirstGiven
        (branch ∷ ref ∷ [])
        (elim b [ none ↦ elim r [ none ↦ codes "main" | some t ↦ t ] | some t ↦ t ])
first_given branch ref b r (inr (t, e, n, q)) k = inl (t, e, n, rw q refl)
first_given branch ref b r (inl (e, q)) (inr (t, f, n, p)) = inr (e, inl (t, f, n, rw (q, p) refl))
first_given branch ref b r (inl (e, q)) (inl (f, p)) = inr (e, inr (f, rw (q, p) refl))

flag-cases :
    (v : Value)
    → ((v ≡ boolean true) × (is_set_true (parse_optional_boolean v) ≡ true))
      ⊎ ((v ≢ boolean true) × (is_set_true (parse_optional_boolean v) ≡ false))
unfolding parse_optional_boolean
flag-cases (boolean true) = inl (refl, refl)
flag-cases (boolean false) = inr (λ e. cc e, refl)
flag-cases undefined = inr (λ e. cc e, refl)
flag-cases Value.null = inr (λ e. cc e, refl)
flag-cases (number _) = inr (λ e. cc e, refl)
flag-cases (string _) = inr (λ e. cc e, refl)
flag-cases (Value.array _) = inr (λ e. cc e, refl)
flag-cases (Value.object _) = inr (λ e. cc e, refl)

IsFirstGiven-ne-nil : (vs : List Value) (branch : Text) → IsFirstGiven vs branch → branch ≢ []
IsFirstGiven-ne-nil [] branch e = cc e
IsFirstGiven-ne-nil (v ∷ vs) branch (inl (t, e, n, q)) = rw q n
IsFirstGiven-ne-nil (v ∷ vs) branch (inr (e, h)) = IsFirstGiven-ne-nil vs branch h

IsChosen-ne-nil :
    (settings : Fields) (corpus branch : Text) → IsChosen settings corpus branch → branch ≢ []
IsChosen-ne-nil settings corpus branch (inl (e, q)) = rw q cc
IsChosen-ne-nil settings corpus branch (inr (e, h)) =
    IsFirstGiven-ne-nil
      (get (codes "gitWritebackBranch") settings ∷ get (codes "gitRef") settings ∷ []) branch h

chosen :
    (settings : Fields) (corpus : Text)
    → IsChosen settings corpus (resolve_git_writeback_branch settings corpus)
unfolding resolve_git_writeback_branch resolve_git_ref resolve_git_writeback_feature_branch
    parse_corpus_sync_settings
chosen settings corpus = elim (flag-cases (get (codes "gitWritebackUseFeatureBranch") settings)) [
  | inl (e, q) ↦ inl (e, rw q refl)
  | inr (e, q) ↦ inr (
    e,
    rw q (
        first_given _ _ _ _ (read_trimmed-Reading (get (codes "gitWritebackBranch") settings))
          (read_trimmed-Reading (get (codes "gitRef") settings))),
  )
]

-- Writeback pushes to the feature branch of the corpus if the settings say true for it; else to the
-- first of the writeback branch and the git ref that is a text with more than white space, trimmed;
-- else to "main". The branch is never empty.
pub resolve_git_writeback_branch-IsChosen :
    (settings : Fields) (corpus : Text)
    → IsChosen settings corpus (resolve_git_writeback_branch settings corpus)
      × (resolve_git_writeback_branch settings corpus ≢ [])
resolve_git_writeback_branch-IsChosen settings corpus =
    (chosen settings corpus, IsChosen-ne-nil settings corpus _ (chosen settings corpus))
