-- ===== src/Search/Registry/Laws.antt =====
-- The registry as a map, and the strategies that it never loses.
use evukb.Common.{
  List, [], ◌∷◌, ◌++◌, ◌≡◌, ◌≢◌, refl, sym, ◌⊎◌, inl, inr, Bool, true, false, arith, Option, none,
  some, Bool-cases, Result, ok, err, any,
}
use evukb.Common.Text.{Text, text_eq, text_eq_iff, text_eq_refl}
use evukb.Search.Registry.{
  RankingStrategy, BuiltinRanks, RegistryError, Strategies, is_given, get_strategy, set_strategy,
  delete_strategy, is_builtin, seed_all, add_unless_same, create_ranking_strategy_registry,
  register, unregister, resolve, builtin_ranking_strategies,
}

-- The calls of a running registry; a call that throws leaves it as it is.
pub data Call (Rank : Type 0) : Type 0 where
  register_call : RankingStrategy Rank → Bool → Call Rank
  unregister_call : Text → Call Rank

module _ {Rank : Type 0} where
  get-set_strategy :
      (id : Text) (s : RankingStrategy Rank) (m : Strategies Rank)
      → get_strategy id (set_strategy id s m) ≡ some s
  unfolding get_strategy set_strategy
  get-set_strategy id s [] = ground (arith, text_eq_refl id)
  get-set_strategy id s ((k, old) ∷ m) = ground (arith, get-set_strategy id s m)

  get-set_strategy_other :
      (id other : Text) (s : RankingStrategy Rank) (m : Strategies Rank)
      → text_eq id other ≡ false
      → get_strategy other (set_strategy id s m) ≡ get_strategy other m
  unfolding get_strategy set_strategy
  get-set_strategy_other id other s [] n = ground arith
  get-set_strategy_other id other s ((k, old) ∷ m) n =
      ground (arith, get-set_strategy_other id other s m, text_eq_iff k id)

  get-delete_strategy :
      (id : Text) (m : Strategies Rank) → get_strategy id (delete_strategy id m) ≡ none
  unfolding get_strategy delete_strategy
  get-delete_strategy id [] = refl
  get-delete_strategy id ((k, old) ∷ m) = ground (arith, get-delete_strategy id m)

  get-delete_strategy_other :
      (id other : Text) (m : Strategies Rank)
      → text_eq id other ≡ false
      → get_strategy other (delete_strategy id m) ≡ get_strategy other m
  unfolding get_strategy delete_strategy
  get-delete_strategy_other id other [] n = refl
  get-delete_strategy_other id other ((k, old) ∷ m) n =
      ground (arith, get-delete_strategy_other id other m, text_eq_iff k id)

  -- What a successful registration does: the strategy is found under its id, and what is found
  -- under every other id is as before. What it replaces has another version, or the
  -- registration was forced.
  pub record IsRegistered (s : RankingStrategy Rank) (force : Bool) (m m' : Strategies Rank)
      : Type 0 where
    pub found : resolve s.id m' ≡ ok s
    pub others : (other : Text) → (s.id ≡ other) ⊎ (get_strategy other m' ≡ get_strategy other m)
    pub replaced :
        (get_strategy s.id m ≡ none)
        ⊎ (force ≡ true)
        ⊎ ((old : RankingStrategy Rank) × (get_strategy s.id m ≡ some old)
            × (old.version ≢ s.version))

  set_strategy-others :
      (id other : Text) (s : RankingStrategy Rank) (m : Strategies Rank)
      → (id ≡ other) ⊎ (get_strategy other (set_strategy id s m) ≡ get_strategy other m)
  set_strategy-others id other s m = elim (Bool-cases (text_eq id other)) [
    | inl y ↦ inl ((text_eq_iff id other).0 y)
    | inr n ↦ inr (get-set_strategy_other id other s m n)
  ]

  resolve-set_strategy :
      (s : RankingStrategy Rank) (m : Strategies Rank) → resolve s.id (set_strategy s.id s m) ≡ ok s
  unfolding resolve
  resolve-set_strategy s m = ground (arith, get-set_strategy s.id s m)

  add_outcome :
      (s : RankingStrategy Rank) (force : Bool) (o : Option (RankingStrategy Rank))
      (m : Strategies Rank) {m' : Strategies Rank}
      → get_strategy s.id m ≡ o
      → add_unless_same s force o m ≡ ok m'
      → (set_strategy s.id s m ≡ m')
        × ((get_strategy s.id m ≡ none)
            ⊎ (force ≡ true)
            ⊎ ((old : RankingStrategy Rank) × (get_strategy s.id m ≡ some old)
                × (old.version ≢ s.version)))
  add_outcome s force none m g e = (ground arith, inl g)
  add_outcome s true (some old) m g e = (ground arith, inr (inl refl))
  add_outcome s false (some old) m g e = (
    ground arith,
    inr (inr (old, g, λ same. ground (arith, (text_eq_iff old.version s.version).1 same))),
  )

  register_outcome :
      (s : RankingStrategy Rank) (force : Bool) (m : Strategies Rank) {m' : Strategies Rank}
      → register s force m ≡ ok m'
      → add_unless_same s force (get_strategy s.id m) m ≡ ok m'
  unfolding register
  register_outcome s force m e = ground arith

  -- A registration that does not throw adds the strategy under its id, leaves the others as they
  -- are, and replaces only a strategy of another version, unless it is forced.
  pub register-IsRegistered :
      (s : RankingStrategy Rank) (force : Bool) (m m' : Strategies Rank)
      → register s force m ≡ ok m'
      → IsRegistered s force m m'
  register-IsRegistered s force m m' e =
      let (same, why) =
        add_outcome s force (get_strategy s.id m) m refl (register_outcome s force m e) in
      rw (sym same) (record {
        found = resolve-set_strategy s m;
        others = λ other. set_strategy-others s.id other s m;
        replaced = why;
      })

  abbrev result_or : Strategies Rank → Result RegistryError (Strategies Rank) → Strategies Rank
  result_or m (ok m') = m'
  result_or m (err e) = m

  unfoldable pub after_calls : List (Call Rank) → Strategies Rank → Strategies Rank
  after_calls [] m = m
  after_calls (register_call s force ∷ calls) m =
      after_calls calls (result_or m (register s force m))
  after_calls (unregister_call id ∷ calls) m = after_calls calls (result_or m (unregister id m))

  -- An id under which a strategy is found, with that id.
  HasStrategy : Text → Strategies Rank → Type 0
  HasStrategy id m = is_given (get_strategy id m) ≡ true

  set_strategy-HasStrategy :
      (id : Text) (s : RankingStrategy Rank) (k : Text) (m : Strategies Rank)
      → HasStrategy id m
      → HasStrategy id (set_strategy k s m)
  unfolding HasStrategy
  set_strategy-HasStrategy id s k m h =
      ground (arith, set_strategy-others k id s m, get-set_strategy k s m)

  register-HasStrategy :
      (id : Text) (s : RankingStrategy Rank) (force : Bool) (m : Strategies Rank)
      → HasStrategy id m
      → HasStrategy id (result_or m (register s force m))
  register-HasStrategy id s force m h = go (register s force m) refl
    where
      go :
          (r : Result RegistryError (Strategies Rank))
          → register s force m ≡ r
          → HasStrategy id (result_or m r)
      go (err x) e = h
      go (ok m') e =
          let (same, _) =
            add_outcome s force (get_strategy s.id m) m refl (register_outcome s force m e) in
          rw (sym same) (set_strategy-HasStrategy id s s.id m h)

  unregister-HasStrategy :
      (id k : Text) (m : Strategies Rank)
      → is_builtin id ≡ true
      → HasStrategy id m
      → HasStrategy id (result_or m (unregister k m))
  unfolding unregister HasStrategy
  unregister-HasStrategy id k m b h =
      ground (arith, get-delete_strategy_other k id m, text_eq_iff k id)

  after_calls-HasStrategy :
      (id : Text) (calls : List (Call Rank)) (m : Strategies Rank)
      → is_builtin id ≡ true
      → HasStrategy id m
      → HasStrategy id (after_calls calls m)
  unfolding after_calls
  after_calls-HasStrategy id [] m b h = h
  after_calls-HasStrategy id (register_call s force ∷ calls) m b h =
      after_calls-HasStrategy id calls _ b (register-HasStrategy id s force m h)
  after_calls-HasStrategy id (unregister_call k ∷ calls) m b h =
      after_calls-HasStrategy id calls _ b (unregister-HasStrategy id k m b h)

  seed_all-HasStrategy :
      (id : Text) (seed : List (RankingStrategy Rank)) (m m' : Strategies Rank)
      → HasStrategy id m ⊎ (any (λ s. text_eq id s.id) seed ≡ true)
      → seed_all seed m ≡ ok m'
      → HasStrategy id m'
  unfolding seed_all HasStrategy
  seed_all-HasStrategy id [] m m' h e = ground arith
  seed_all-HasStrategy id (s ∷ seed) m m' h e =
      seed_all-HasStrategy id seed (set_strategy s.id s m) m'
        (ground (
          arith,
          set_strategy-HasStrategy id s s.id m,
          get-set_strategy s.id s m,
          text_eq_iff id s.id,
        ))
        (ground arith)

  any-append :
      (p : RankingStrategy Rank → Bool) (xs ys : List (RankingStrategy Rank))
      → any p xs ≡ true
      → any p (xs ++ ys) ≡ true
  any-append p [] ys e = cc e
  any-append p (x ∷ xs) ys e = ground (arith, any-append p xs ys)

-- A registry that was created with the built-in strategies finds a strategy under each built-in id
-- after whatever registrations and removals, those that throw included. It need not be the one that
-- was built in: a registration of the same id may have replaced it.
pub builtins_stay :
    {Rank : Type 0} (ranks : BuiltinRanks Rank) (extensions : List (RankingStrategy Rank))
    (created : Strategies Rank) (calls : List (Call Rank)) (id : Text)
    → create_ranking_strategy_registry ranks true extensions ≡ ok created
    → is_builtin id ≡ true
    → is_given (get_strategy id (after_calls calls created)) ≡ true
unfolding create_ranking_strategy_registry HasStrategy is_builtin
builtins_stay ranks extensions created calls id e b = after_calls-HasStrategy id calls created b (
    seed_all-HasStrategy id (builtin_ranking_strategies ranks ++ extensions) [] created
      (inr (any-append (λ s. text_eq id s.id) (builtin_ranking_strategies ranks) extensions b)) e)
