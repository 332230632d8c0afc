-- ===== src/AgentWrite/PathPolicy/Narrow.antt =====
-- Each layer of `resolveAgentWritePathPrefixes` can only narrow what an agent may write.
use evukb.Common.{
  List, [], ◌∷◌, ◌++◌, ◌≡◌, refl, ◌⊎◌, inl, inr, Bool, true, false, arith, any, All, All-append,
  All-imp, Option, none, some, Bool-cases, Result, ok, err, >>=-ok,
}
use evukb.Common.Text.{Text, text_eq}
use evukb.AgentWrite.PathPolicy.{
  PolicyError, Layers, prefix_covers, unique, unique_from, intersect_one, intersect_all,
  intersect_prefix_layers, normalize_all, narrow, workspace_layer,
  resolve_agent_write_path_prefixes,
}
use evukb.AgentWrite.PathPolicy.Cover.{Covers, Covers-refl_right, Covers-trans}

-- Some prefix of the list covers the path.
abbrev pub Covered : List Text → Text → Type 0
Covered [] q = ⊥
Covered (p ∷ ps) q = Covers p q ⊎ Covered ps q

unique_from-All : (P : Text → Type 0) (seen xs : List Text) → All P xs → All P (unique_from seen xs)
unfolding unique_from
unique_from-All P seen [] h = tt
unique_from-All P seen (x ∷ xs) (p, h) = elim (Bool-cases (any (text_eq x) seen)) [
  | inl e ↦ rw e (unique_from-All P seen xs h)
  | inr n ↦ rw n (p, unique_from-All P (x ∷ seen) xs h)
]

abbrev Below : List Text → Text → Text → Type 0
Below parents child q = Covered parents q × Covers child q

Below-cons :
    (p : Text) (ps : List Text) (child q : Text) → Below ps child q → Below (p ∷ ps) child q
Below-cons p ps child q (h, k) = (inr h, k)

intersect_one-Below :
    (parents : List Text) (child : Text) (out : List Text)
    → intersect_one parents child ≡ ok out
    → All (Below parents child) out
unfolding intersect_one
intersect_one-Below [] child out e = let same : out ≡ [] = cc in rw same tt
intersect_one-Below (p ∷ ps) child out e =
    step (prefix_covers p child) (prefix_covers child p) refl refl
      (intersect_one-Below ps child out)
  where
    step :
        (r s : Result PolicyError Bool)
        → prefix_covers p child ≡ r
        → prefix_covers child p ≡ s
        → (intersect_one ps child ≡ ok out → All (Below ps child) out)
        → All (Below (p ∷ ps) child) out
    step (ok true) s q k ih =
        let same : out ≡ child ∷ [] = ground arith in
        rw same ((inl q, Covers-refl_right p child true q), tt)
    step (ok false) (ok true) q k ih =
        let same : out ≡ p ∷ [] = ground arith in
        rw same ((inl (Covers-refl_right child p true k), k), tt)
    step (ok false) (ok false) q k ih =
        All-imp (Below ps child) (Below (p ∷ ps) child) out (Below-cons p ps child)
          (ih (ground arith))
    step (ok false) (err x) q k ih = ground arith
    step (err x) s q k ih = ground arith

-- What one layer leaves of another lies in both.
abbrev Both : List Text → List Text → Text → Type 0
Both parents children q = Covered parents q × Covered children q

intersect_all-Both :
    (parents children out : List Text)
    → intersect_all parents children ≡ ok out
    → All (Both parents children) out
unfolding intersect_all
intersect_all-Both parents [] out e = let same : out ≡ [] = cc in rw same tt
intersect_all-Both parents (c ∷ cs) out e =
    let (found, f, e') = >>=-ok (intersect_one parents c) _ e in
    let (rest, r, e'') = >>=-ok (intersect_all parents cs) _ e' in
    let same : out ≡ found ++ rest = cc in
    rw same (
      All-append (Both parents (c ∷ cs)) found rest
        (All-imp (Below parents c) (Both parents (c ∷ cs)) found (λ q b. (b.0, inl b.1))
          (intersect_one-Below parents c found f))
        (All-imp (Both parents cs) (Both parents (c ∷ cs)) rest (λ q b. (b.0, inr b.1))
          (intersect_all-Both parents cs rest r)))

intersect_prefix_layers-Both :
    (parents children out : List Text)
    → intersect_prefix_layers parents children ≡ ok out
    → All (Both parents children) out
unfolding intersect_prefix_layers
intersect_prefix_layers-Both parents children out e =
    let (found, f, e') = >>=-ok (intersect_all parents children) _ e in
    let same : out ≡ unique found = cc in
    rw same (
      unique_from-All (Both parents children) [] found
        (intersect_all-Both parents children found f))

-- An absent or empty layer allows everything; another only what its normalised prefixes cover.
abbrev pub LayerAllows : Option (List Text) → Text → Type 0
LayerAllows none q = Unit
LayerAllows (some []) q = Unit
LayerAllows (some (p ∷ ps)) q =
    (layer : List Text) × (normalize_all (p ∷ ps) ≡ ok layer) × Covered layer q

Covered-trans : (ps : List Text) (q r : Text) → Covered ps q → Covers q r → Covered ps r
Covered-trans [] q r h k = absurd h
Covered-trans (p ∷ ps) q r (inl h) k = inl (Covers-trans p q r h k)
Covered-trans (p ∷ ps) q r (inr h) k = inr (Covered-trans ps q r h k)

-- The text is one of the prefixes, or one of them covers it.
abbrev pub Within : List Text → Text → Type 0
Within [] q = ⊥
Within (p ∷ ps) q = ((q ≡ p) ⊎ Covers p q) ⊎ Within ps q

Within-trans : (ps : List Text) (q r : Text) → Within ps q → Covers q r → Within ps r
Within-trans [] q r h k = absurd h
Within-trans (p ∷ ps) q r (inl (inl e)) k = inl (inr (rw e at k))
Within-trans (p ∷ ps) q r (inl (inr h)) k = inl (inr (Covers-trans p q r h k))
Within-trans (p ∷ ps) q r (inr h) k = inr (Within-trans ps q r h k)

Within-All : (ps : List Text) → All (Within ps) ps
Within-All [] = tt
Within-All (p ∷ ps) =
    (inl (inl refl), All-imp (Within ps) (Within (p ∷ ps)) ps (λ q h. inr h) (Within-All ps))

LayerAllows-trans :
    (layer : Option (List Text)) (q r : Text)
    → LayerAllows layer q
    → Covers q r
    → LayerAllows layer r
LayerAllows-trans none q r h k = tt
LayerAllows-trans (some []) q r h k = tt
LayerAllows-trans (some (p ∷ ps)) q r (layer, e, h) k = (layer, e, Covered-trans layer q r h k)

Covered-All :
    (P : Text → Type 0) (ps : List Text) (q : Text)
    → ((p : Text) → P p → Covers p q → P q)
    → All P ps
    → Covered ps q
    → P q
Covered-All P [] q f h c = absurd c
Covered-All P (p ∷ ps) q f (h, hs) (inl c) = f p h c
Covered-All P (p ∷ ps) q f (h, hs) (inr c) = Covered-All P ps q f hs c

-- A layer adds its own limit, and keeps each limit that covering keeps.
narrow-All :
    (P : Text → Type 0) (effective : List Text) (layer : Option (List Text)) (out : List Text)
    → ((p q : Text) → P p → Covers p q → P q)
    → All P effective
    → narrow effective layer ≡ ok out
    → All (λ q. P q × LayerAllows layer q) out
unfolding narrow
narrow-All P effective none out f h e =
    let same : out ≡ effective = cc in
    rw same (All-imp P (λ q. P q × LayerAllows none q) effective (λ q p. (p, tt)) h)
narrow-All P effective (some []) out f h e =
    let same : out ≡ effective = cc in
    rw same (All-imp P (λ q. P q × LayerAllows (some []) q) effective (λ q p. (p, tt)) h)
narrow-All P effective (some (p ∷ ps)) out f h e =
    let (layer, normal, e') = >>=-ok (normalize_all (p ∷ ps)) _ e in
    All-imp (Both effective layer) (λ q. P q × LayerAllows (some (p ∷ ps)) q) out
      (λ q b. (Covered-All P effective q (λ r. f r q) h b.0, (layer, normal, b.1)))
      (intersect_prefix_layers-Both effective layer out e')

-- What the three layers cover together.
pub record Narrowed (layers : Layers) (q : Text) : Type 0 where
  pub workspace : List Text
  pub from_workspace : workspace_layer layers.workspace_prefixes ≡ ok workspace
  pub in_workspace : Within workspace q
  pub in_corpus : LayerAllows layers.corpus_prefixes q
  pub in_token : LayerAllows layers.token_prefixes q

-- Every prefix that `resolveAgentWritePathPrefixes` returns is one of the workspace's prefixes or
-- covered by one, and covered by a prefix of the corpus and of the credential, where they set any.
pub resolve_agent_write_path_prefixes-Narrowed :
    (layers : Layers) (out : List Text)
    → resolve_agent_write_path_prefixes layers ≡ ok out
    → All (Narrowed layers) out
unfolding resolve_agent_write_path_prefixes
resolve_agent_write_path_prefixes-Narrowed layers out e =
    let (ws, w, e') = >>=-ok (workspace_layer layers.workspace_prefixes) _ e in
    let (eff, c, e'') = >>=-ok (narrow ws layers.corpus_prefixes) _ e' in
    let corpus =
      narrow-All (Within ws) ws layers.corpus_prefixes eff (λ p q. Within-trans ws p q)
        (Within-All ws) c in
    let token =
      narrow-All (λ q. Within ws q × LayerAllows layers.corpus_prefixes q) eff layers.token_prefixes
        out
        (λ p q h k. (Within-trans ws p q h.0 k, LayerAllows-trans layers.corpus_prefixes p q h.1 k))
        corpus e'' in
    All-imp
      (λ q.
        (Within ws q × LayerAllows layers.corpus_prefixes q) × LayerAllows layers.token_prefixes q)
      (Narrowed layers) out
      (λ q h. record {
        workspace = ws;
        from_workspace = w;
        in_workspace = h.0.0;
        in_corpus = h.0.1;
        in_token = h.1;
      })
      token
