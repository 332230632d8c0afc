-- ===== src/AgentWrite/PathPolicy/Cover.antt =====
-- What it means that a prefix covers a path, and that covering is reflexive and transitive.
use evukb.Common.{
  [], ◌∷◌, ◌++◌, ◌≡◌, refl, sym, ap, ◌∙◌, ◌≢◌, ◌↔◌, ◌⊎◌, inl, inr, Bool, true, arith, append_assoc,
  append-nil, All, Bool-cases, ==_iff, Result, ok, err,
}
use evukb.Common.Text.{Text, text_eq, text_eq_iff, starts_with, drop_trailing}
use evukb.Common.Text.Prefix.{
  starts_with-rest, starts_with-append, drop_trailing-suffix, drop_trailing-tail,
  drop_trailing_idem,
}
use evukb.Storage.Posix.{slash}
use evukb.AgentWrite.PathPolicy.{
  PolicyError, is_slash, covers, prefix_covers, normalize_agent_write_path,
  normalize_agent_write_prefix,
}

-- The path is the prefix, or continues it behind a slash.
abbrev pub Under : Text → Text → Type 0
Under prefix path = (path ≡ prefix) ⊎ ((rest : Text) × (path ≡ prefix ++ slash ∷ rest))

covers-Under : (a b : Text) → covers a b ≡ true → Under a b
unfolding covers
covers-Under a b h = elim (Bool-cases (text_eq b a)) [
  | inl e ↦ inl ((text_eq_iff b a).0 e)
  | inr n ↦
      let (rest, e) = starts_with-rest (a ++ slash ∷ []) b (ground arith) in
      inr (rest, e ∙ append_assoc a (slash ∷ []) rest)
]

Under-covers : (a b : Text) → Under a b → covers a b ≡ true
unfolding covers
Under-covers a b (inl e) = ground (arith, text_eq_iff b a)
Under-covers a b (inr (rest, e)) =
    let found : starts_with (a ++ slash ∷ []) b ≡ true =
      rw (e ∙ sym (append_assoc a (slash ∷ []) rest)) (starts_with-append (a ++ slash ∷ []) rest) in
    ground arith

pub covers_iff : (a b : Text) → (covers a b ≡ true) ↔ Under a b
covers_iff a b = (covers-Under a b, Under-covers a b)

abbrev strip : Text → Text
strip = drop_trailing is_slash

append-cons-ne-nil : (a b : Text) → a ++ slash ∷ b ≢ []
append-cons-ne-nil [] b = cc
append-cons-ne-nil (c ∷ a) b = cc

-- Behind a stripped prefix, stripping leaves the path under it.
strip-append : (a b : Text) → strip a ≡ a → Under a (strip (a ++ slash ∷ b))
unfolding drop_trailing
strip-append [] b e = go (strip b) refl
  where
    go : (r : Text) → strip b ≡ r → Under [] (strip (slash ∷ b))
    go [] q = inl (ground arith)
    go (d ∷ r) q = inr (d ∷ r, ground arith)
strip-append (c ∷ a) b e =
    go (strip (a ++ slash ∷ b)) refl (strip-append a b (drop_trailing-tail is_slash c a e))
  where
    go :
        (r : Text)
        → strip (a ++ slash ∷ b) ≡ r
        → Under a (strip (a ++ slash ∷ b))
        → Under (c ∷ a) (strip (c ∷ a ++ slash ∷ b))
    go [] q (inl h) = inl (ground arith)
    go [] q (inr (rest, h)) = absurd (append-cons-ne-nil a rest (sym h ∙ q))
    go (d ∷ r) q (inl h) = inl (ground arith)
    go (d ∷ r) q (inr (rest, h)) = inr (rest, ground arith)

strip-Under : (a b : Text) → strip a ≡ a → Under a b → Under a (strip b)
strip-Under a b e (inl h) = inl (rw (h, e))
strip-Under a b e (inr (rest, h)) = rw h (strip-append a rest e)

Under-trans : (a b c : Text) → Under a b → Under b c → Under a c
Under-trans a b c (inl h) k = rw (← h) k
Under-trans a b c (inr (r, h)) (inl k) = inr (r, k ∙ h)
Under-trans a b c (inr (r, h)) (inr (s, k)) =
    inr (r ++ slash ∷ s, ground (arith, append_assoc a (slash ∷ r) (slash ∷ s)))

-- A path is under itself without its closing slashes.
Under-strip : (b : Text) → Under (strip b) b
Under-strip b = let (zs, e, h) = drop_trailing-suffix is_slash b in go zs e h
  where
    go : (zs : Text) → b ≡ strip b ++ zs → All (λ c. is_slash c ≡ true) zs → Under (strip b) b
    go [] e h = inl (e ∙ append-nil (strip b))
    go (z ∷ zs) e (q, h) = inr (zs, e ∙ ap (λ x. strip b ++ x ∷ zs) ((==_iff z slash).0 q))

-- `prefixCovers` returns true, and so does not throw.
abbrev pub Covers : Text → Text → Type 0
Covers p q = prefix_covers p q ≡ ok true

-- A successful call has normalised both sides, and compared the results.
pub record Compared (p q : Text) (b : Bool) : Type 0 where
  pub prefix_path : Text
  pub path : Text
  pub from_prefix : normalize_agent_write_path p ≡ ok prefix_path
  pub from_path : normalize_agent_write_path q ≡ ok path
  pub verdict : covers (strip prefix_path) path ≡ b

pub prefix_covers-Compared : (p q : Text) (b : Bool) → prefix_covers p q ≡ ok b → Compared p q b
unfolding prefix_covers normalize_agent_write_prefix
prefix_covers-Compared p q b h =
    go (normalize_agent_write_path p) (normalize_agent_write_path q) refl refl
  where
    go :
        (r s : Result PolicyError Text)
        → normalize_agent_write_path p ≡ r
        → normalize_agent_write_path q ≡ s
        → Compared p q b
    go (ok a) (ok c) e f = record {
      prefix_path = a;
      path = c;
      from_prefix = e;
      from_path = f;
      verdict = ground arith;
    }
    go (ok a) (err x) e f = ground arith
    go (err x) s e f = ground arith

Compared-prefix_covers : {p q : Text} {b : Bool} → Compared p q b → prefix_covers p q ≡ ok b
unfolding prefix_covers normalize_agent_write_prefix
Compared-prefix_covers c = ground arith

-- A path that can be normalised is covered by itself.
Covers-self : (p a : Text) → normalize_agent_write_path p ≡ ok a → Covers p p
Covers-self p a e = Compared-prefix_covers (record {
  prefix_path = a;
  path = a;
  from_prefix = e;
  from_path = e;
  verdict = Under-covers (strip a) a (Under-strip a);
})

pub Covers-refl_left : (p q : Text) (b : Bool) → prefix_covers p q ≡ ok b → Covers p p
Covers-refl_left p q b h =
    let c = prefix_covers-Compared p q b h in Covers-self p c.prefix_path c.from_prefix

pub Covers-refl_right : (p q : Text) (b : Bool) → prefix_covers p q ≡ ok b → Covers q q
Covers-refl_right p q b h =
    let c = prefix_covers-Compared p q b h in Covers-self q c.path c.from_path

meet :
    (a b b' c : Text)
    → b ≡ b'
    → covers (strip a) b ≡ true
    → covers (strip b') c ≡ true
    → covers (strip a) c ≡ true
meet a b b' c e h k =
    let stripped =
      strip-Under (strip a) b (drop_trailing_idem is_slash a) (covers-Under (strip a) b h) in
    Under-covers (strip a) c
      (Under-trans (strip a) (strip b) c stripped (rw e (covers-Under (strip b') c k)))

pub Covers-trans : (p q r : Text) → Covers p q → Covers q r → Covers p r
Covers-trans p q r h k =
    let c = prefix_covers-Compared p q true h in
    let d = prefix_covers-Compared q r true k in
    Compared-prefix_covers (record {
      prefix_path = c.prefix_path;
      path = d.path;
      from_prefix = c.from_prefix;
      from_path = d.from_path;
      verdict =
          meet c.prefix_path c.path d.prefix_path d.path (cc (c.from_path, d.from_prefix)) c.verdict
            d.verdict;
    })

-- Of two texts that can be normalised, `prefixCovers` throws at neither.
pub prefix_covers_total :
    (p q : Text) → Covers p p → Covers q q → (b : Bool) × (prefix_covers p q ≡ ok b)
prefix_covers_total p q h k =
    let c = prefix_covers-Compared p p true h in
    let d = prefix_covers-Compared q q true k in
    (
      covers (strip c.path) d.path,
      Compared-prefix_covers (record {
        prefix_path = c.path;
        path = d.path;
        from_prefix = c.from_path;
        from_path = d.from_path;
        verdict = refl;
      }),
    )
