-- ===== src/Nodes/Prefix.antt =====
-- Paths under a prefix: `next_path` puts what stands under the old prefix under the new one, and
-- no two paths on the same one.
use evukb.Common.{
  ℕ, suc, [], ◌∷◌, ◌++◌, ◌≡◌, refl, sym, ap, ◌∙◌, ◌≢◌, ◌⊎◌, inl, inr, true, Bool-cases, drop,
  length, arith, append_assoc,
}
use evukb.Common.Text.{Text, text_eq, text_eq_iff, text_eq_refl, truthy}
use evukb.Common.Text.Prefix.{starts_with-rest, starts_with-append}
use evukb.Storage.Posix.{slash}
use evukb.Nodes.Repository.{is_under, next_path}

pub drop-append : (p : Text) (c : ℕ) (r : Text) → drop (suc (length p)) (p ++ c ∷ r) ≡ r
drop-append [] c r = refl
drop-append (a ∷ p) c r = drop-append p c r

-- A path under a prefix is the prefix, or has a slash and a rest behind it.
pub is_under-cases :
    (prefix path : Text)
    → is_under prefix path ≡ true
    → (path ≡ prefix) ⊎ ((rest : Text) × (path ≡ prefix ++ slash ∷ rest))
is_under-cases prefix path h = elim (Bool-cases (text_eq path prefix)) [
  | inl y ↦ inl ((text_eq_iff path prefix).0 y)
  | inr nn ↦
      let (rest, e) = starts_with-rest (prefix ++ slash ∷ []) path (ground arith) in
      inr (rest, e ∙ append_assoc prefix (slash ∷ []) rest)
]

pub is_under_self : (prefix : Text) → is_under prefix prefix ≡ true
is_under_self prefix = rw (text_eq_refl prefix) refl

pub is_under-below : (prefix rest : Text) → is_under prefix (prefix ++ slash ∷ rest) ≡ true
is_under-below prefix rest =
    ground
      (arith, starts_with-append (prefix ++ slash ∷ []) rest, append_assoc prefix (slash ∷ []) rest)

append-ne_self : (p : Text) (c : ℕ) (r : Text) → p ++ c ∷ r ≢ p
append-ne_self [] c r = cc
append-ne_self (a ∷ p) c r = λ e. append-ne_self p c r (ground arith)

append-inj : (p : Text) {s t : Text} → p ++ s ≡ p ++ t → s ≡ t
append-inj [] e = e
append-inj (a ∷ p) e = append-inj p (ground arith)

pub next_path_self :
    (old_prefix new_prefix : Text)
    → truthy new_prefix ≡ true
    → next_path old_prefix new_prefix old_prefix ≡ new_prefix
unfolding next_path
next_path_self old_prefix new_prefix h = rw (text_eq_refl old_prefix) (rw h refl)

pub next_path-below :
    (old_prefix new_prefix rest : Text)
    → truthy new_prefix ≡ true
    → truthy rest ≡ true
    → next_path old_prefix new_prefix (old_prefix ++ slash ∷ rest) ≡ new_prefix ++ slash ∷ rest
unfolding next_path
next_path-below old_prefix new_prefix rest h k =
    let path = old_prefix ++ slash ∷ rest in
    elim (Bool-cases (text_eq path old_prefix)) [
      | inl y ↦ absurd (append-ne_self old_prefix slash rest ((text_eq_iff path old_prefix).0 y))
      | inr nn ↦ rw nn (rw (drop-append old_prefix slash rest) (rw (h, k) refl))
    ]

truthy-cases : (t : Text) → (t ≡ []) ⊎ (truthy t ≡ true)
truthy-cases [] = inl refl
truthy-cases (c ∷ t) = inr refl

module _ (old_prefix new_prefix : Text) (given : truthy new_prefix ≡ true) where
  -- Where a path under the old prefix goes.
  pub data Goes (path : Text) : Type 0 where
    at : path ≡ old_prefix → next_path old_prefix new_prefix path ≡ new_prefix → Goes path
    below :
        (rest : Text)
        → path ≡ old_prefix ++ slash ∷ rest
        → next_path old_prefix new_prefix path ≡ new_prefix ++ slash ∷ rest
        → Goes path

  pub goes :
      (path : Text) → is_under old_prefix path ≡ true → path ≢ old_prefix ++ slash ∷ [] → Goes path
  goes path u n = elim (is_under-cases old_prefix path u) [
    | inl e ↦ at e (rw e (next_path_self old_prefix new_prefix given))
    | inr (rest, e) ↦ elim (truthy-cases rest) [
      | inl z ↦ absurd (n (e ∙ ap (λ r. old_prefix ++ slash ∷ r) z))
      | inr k ↦ below rest e (rw e (next_path-below old_prefix new_prefix rest given k))
    ]
  ]

  pub next_path-is_under :
      (path : Text) → Goes path → is_under new_prefix (next_path old_prefix new_prefix path) ≡ true
  next_path-is_under path (at e q) = rw q (is_under_self new_prefix)
  next_path-is_under path (below rest e q) = rw q (is_under-below new_prefix rest)

  pub next_path-inj :
      (p q : Text)
      → Goes p
      → Goes q
      → next_path old_prefix new_prefix p ≡ next_path old_prefix new_prefix q
      → p ≡ q
  next_path-inj p q (at e f) (at g h) k = e ∙ sym g
  next_path-inj p q (at e f) (below r g h) k =
      absurd (append-ne_self new_prefix slash r (sym h ∙ sym k ∙ f))
  next_path-inj p q (below r e f) (at g h) k =
      absurd (append-ne_self new_prefix slash r (sym f ∙ k ∙ h))
  next_path-inj p q (below r e f) (below s g h) k =
      e ∙ ap (λ x. old_prefix ++ x) (append-inj new_prefix (sym f ∙ k ∙ h)) ∙ sym g
