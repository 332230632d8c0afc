-- ===== src/AgentWrite/PathPolicy/Guard.antt =====
-- What `assertAgentWritePath` and `splitAgentWritePath` let through.
use evukb.Common.{
  List, [], ◌∷◌, ◌++◌, ◌≡◌, refl, sym, ap, ◌∙◌, ◌↔◌, ◌⊎◌, inl, inr, Bool, true, false, arith, All,
  Option, none, some, Result, ok, err, >>=-ok,
}
use evukb.Common.Text.{Text, trim, drop_leading, drop_trailing}
use evukb.Common.Text.Split.{Lacks}
use evukb.Storage.Posix.{slash}
use evukb.Storage.PathSafety.{PathError, normalize_relative_path}
use evukb.Storage.PathSafety.Laws.{
  IsRelative, IsRelative-first, normalize_relative_path-IsRelative,
  normalize_relative_path_of_IsRelative,
}
use evukb.AgentWrite.PathPolicy.{
  PolicyError, no_file_name, is_slash, normalize_agent_write_path, normalize_agent_write_prefix,
  covers, prefix_covers, some_covers, assert_agent_write_path, SplitPath, split_last,
  split_agent_write_path,
}
use evukb.AgentWrite.PathPolicy.Cover.{
  Under, covers_iff, Covers, Covers-refl_right, prefix_covers-Compared, prefix_covers_total,
}
use evukb.AgentWrite.PathPolicy.Narrow.{Covered}

normalize_agent_write_path-IsRelative :
    (input n : Text) → normalize_agent_write_path input ≡ ok n → IsRelative n
unfolding normalize_agent_write_path
normalize_agent_write_path-IsRelative input n e =
    go (drop_leading is_slash (trim input)) refl
      (normalize_relative_path (drop_leading is_slash (trim input))) refl
  where
    go :
        (t : Text)
        → drop_leading is_slash (trim input) ≡ t
        → (r : Result PathError Text)
        → normalize_relative_path (drop_leading is_slash (trim input)) ≡ r
        → IsRelative n
    go [] p r q = ground arith
    go (c ∷ t) p (ok m) q =
        let same : m ≡ n = ground arith in
        normalize_relative_path-IsRelative (drop_leading is_slash (trim input)) n (q ∙ ap ok same)
    go (c ∷ t) p (err x) q = ground arith

-- A relative path without outer white space is left as it is.
pub normalize_agent_write_path_self :
    (n : Text) → IsRelative n → trim n ≡ n → normalize_agent_write_path n ≡ ok n
unfolding normalize_agent_write_path
normalize_agent_write_path_self n h t =
    let (c, rest, same, other) = IsRelative-first h in
    let kept : drop_leading is_slash n ≡ n = rw same (unfold drop_leading in ground arith) in
    ground (arith, same, kept, normalize_relative_path_of_IsRelative h)

some_covers-Covered :
    (ps : List Text) (path : Text) → some_covers ps path ≡ ok true → Covered ps path
unfolding some_covers
some_covers-Covered [] path e = cc
some_covers-Covered (p ∷ ps) path e = go (prefix_covers p path) refl (some_covers-Covered ps path)
  where
    go :
        (r : Result PolicyError Bool)
        → prefix_covers p path ≡ r
        → (some_covers ps path ≡ ok true → Covered ps path)
        → Covered (p ∷ ps) path
    go (ok true) q ih = inl q
    go (ok false) q ih = inr (ih (ground arith))
    go (err x) q ih = ground arith

Covered-self : (ps : List Text) (path : Text) → Covered ps path → Covers path path
Covered-self [] path c = absurd c
Covered-self (p ∷ ps) path (inl c) = Covers-refl_right p path true c
Covered-self (p ∷ ps) path (inr c) = Covered-self ps path c

Covered-some_covers :
    (ps : List Text) (path : Text)
    → All (λ p. Covers p p) ps
    → Covered ps path
    → some_covers ps path ≡ ok true
unfolding some_covers
Covered-some_covers [] path h c = absurd c
Covered-some_covers (p ∷ ps) path (h, hs) (inl c) = ground arith
Covered-some_covers (p ∷ ps) path (h, hs) (inr c) =
    let (b, e) = prefix_covers_total p path h (Covered-self ps path c) in
    ground (arith, Covered-some_covers ps path hs c)

-- A path that is let through is the normal form, and covered.
assert_agent_write_path-Covered :
    (input : Text) (ps : List Text) (n : Text)
    → assert_agent_write_path input ps ≡ ok n
    → (normalize_agent_write_path input ≡ ok n) × Covered ps n
unfolding assert_agent_write_path
assert_agent_write_path-Covered input [] n e = absurd (ground arith)
assert_agent_write_path-Covered input (p ∷ ps) n e =
    let (m, q, e') = >>=-ok (normalize_agent_write_path input) _ e in
    let (b, r, e'') = >>=-ok (some_covers (p ∷ ps) m) _ e' in
    let passed : b ≡ true = ground arith in
    let same : m ≡ n = ground arith in
    (
      q ∙ ap ok same,
      some_covers-Covered (p ∷ ps) n (ap (some_covers (p ∷ ps)) (sym same) ∙ r ∙ ap ok passed),
    )

-- With prefixes that can all be normalised, a path is let through exactly if its normal form is
-- covered by one of them, and what is returned is that normal form.
pub assert_agent_write_path_iff :
    (input : Text) (ps : List Text) (n : Text)
    → All (λ p. Covers p p) ps
    → (assert_agent_write_path input ps ≡ ok n)
      ↔ ((normalize_agent_write_path input ≡ ok n) × Covered ps n)
unfolding assert_agent_write_path
assert_agent_write_path_iff input [] n h =
    (assert_agent_write_path-Covered input [] n, λ c. absurd c.1)
assert_agent_write_path_iff input (p ∷ ps) n h =
    (assert_agent_write_path-Covered input (p ∷ ps) n, λ c. complete c)
  where
    complete :
        (normalize_agent_write_path input ≡ ok n) × Covered (p ∷ ps) n
        → assert_agent_write_path input (p ∷ ps) ≡ ok n
    complete (q, c) = ground (arith, Covered-some_covers (p ∷ ps) n h c)

-- One of the prefixes, in its normal form, has the path under it.
abbrev pub UnderSome : List Text → Text → Type 0
UnderSome [] n = ⊥
UnderSome (p ∷ ps) n =
    ((q : Text) × (normalize_agent_write_prefix p ≡ ok q) × Under q n) ⊎ UnderSome ps n

pub Covered-UnderSome :
    (ps : List Text) (n : Text)
    → normalize_agent_write_path n ≡ ok n
    → Covered ps n
    → UnderSome ps n
Covered-UnderSome [] n e c = absurd c
Covered-UnderSome (p ∷ ps) n e (inr c) = inr (Covered-UnderSome ps n e c)
Covered-UnderSome (p ∷ ps) n e (inl c) =
    let d = prefix_covers-Compared p n true c in
    let same : d.path ≡ n = cc (d.from_path, e) in
    inl (
      drop_trailing is_slash d.prefix_path,
      (unfold normalize_agent_write_prefix in rw d.from_prefix),
      (covers_iff (drop_trailing is_slash d.prefix_path) n).0
          (ap (covers (drop_trailing is_slash d.prefix_path)) (sym same) ∙ d.verdict),
    )

-- If the path that is let through has no outer white space, it is a relative path, names joined by
-- slashes or "./", and the normal form of one of the allowed prefixes is it or continues to it
-- behind a slash. The other prefixes may be ones that cannot be normalised.
pub assert_agent_write_path-UnderSome :
    (input : Text) (ps : List Text) (n : Text)
    → assert_agent_write_path input ps ≡ ok n
    → trim n ≡ n
    → IsRelative n × UnderSome ps n
assert_agent_write_path-UnderSome input ps n e t =
    let (normal, covered) = assert_agent_write_path-Covered input ps n e in
    let relative = normalize_agent_write_path-IsRelative input n normal in
    (relative, Covered-UnderSome ps n (normalize_agent_write_path_self n relative t) covered)

split_last-none : (t : Text) → split_last t ≡ none → Lacks slash t
unfolding split_last
split_last-none [] e = tt
split_last-none (c ∷ t) e = go (split_last t) refl (split_last-none t)
  where
    go :
        (o : Option SplitPath)
        → split_last t ≡ o
        → (split_last t ≡ none → Lacks slash t)
        → Lacks slash (c ∷ t)
    go none q ih = (ground arith, ih q)
    go (some p) q ih = ground arith

split_last-parts :
    (t : Text) (parts : SplitPath)
    → split_last t ≡ some parts
    → (t ≡ parts.folder_path ++ slash ∷ parts.name) × Lacks slash parts.name
unfolding split_last
split_last-parts [] parts e = cc
split_last-parts (c ∷ t) parts e = go (split_last t) refl (split_last-parts t)
  where
    go :
        (o : Option SplitPath)
        → split_last t ≡ o
        → ((p : SplitPath)
            → split_last t ≡ some p
            → (t ≡ p.folder_path ++ slash ∷ p.name) × Lacks slash p.name)
        → (c ∷ t ≡ parts.folder_path ++ slash ∷ parts.name) × Lacks slash parts.name
    go none q ih =
        let same : parts ≡ record { folder_path = []; name = t } = ground arith in
        rw same (ground arith, split_last-none t q)
    go (some p) q ih =
        let same : parts ≡ record { folder_path = c ∷ p.folder_path; name = p.name } =
          ground arith in
        rw same (ap (λ r. c ∷ r) (ih p q).0, (ih p q).1)

-- The two parts of a split path are the allowed path around its last slash: the name holds no
-- slash, and the folder, a slash and the name make the path up again.
pub split_agent_write_path-join :
    (full_path : Text) (ps : List Text) (parts : SplitPath)
    → split_agent_write_path full_path ps ≡ ok parts
    → (assert_agent_write_path full_path ps ≡ ok (parts.folder_path ++ slash ∷ parts.name))
      × Lacks slash parts.name
unfolding split_agent_write_path
split_agent_write_path-join full_path ps parts e =
    let (n, q, e') = >>=-ok (assert_agent_write_path full_path ps) _ e in
    go n q (split_last n) refl e'
  where
    go :
        (n : Text)
        → assert_agent_write_path full_path ps ≡ ok n
        → (o : Option SplitPath) → split_last n ≡ o
        → (elim (split_last n) [ none ↦ err no_file_name | some p ↦ ok p ]) ≡ ok parts
        → (assert_agent_write_path full_path ps ≡ ok (parts.folder_path ++ slash ∷ parts.name))
          × Lacks slash parts.name
    go n q none r e = ground arith
    go n q (some p) r e =
        let same : p ≡ parts = ground arith in
        let (whole, last) = split_last-parts n parts (r ∙ ap some same) in (q ∙ ap ok whole, last)

split_last-trailing :
    (f : Text) → split_last (f ++ slash ∷ []) ≡ some (record { folder_path = f; name = [] })
unfolding split_last
split_last-trailing [] = refl
split_last-trailing (c ∷ f) = rw (split_last-trailing f)

-- An allowed path that ends with a slash is split all the same, into a folder and the empty name.
pub split_agent_write_path-trailing :
    (full_path : Text) (ps : List Text) (f : Text)
    → assert_agent_write_path full_path ps ≡ ok (f ++ slash ∷ [])
    → split_agent_write_path full_path ps ≡ ok (record { folder_path = f; name = [] })
unfolding split_agent_write_path
split_agent_write_path-trailing full_path ps f e = ground (arith, split_last-trailing f)
