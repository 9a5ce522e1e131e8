-- ===== src/Cache/Visits.antt =====
-- `mp_cache_store_for_each` (internal/cache/cache.c) as one walk over all the entries.
use mp_cache.Prelude.{
  ◌≡◌, ◌∙◌, refl, true, false, List, [], ◌∷◌, ◌++◌, flatten, if◌then◌else◌, Bool-cases, inl, inr,
}
use mp_cache.Cache.Entry.{Entry}
use mp_cache.Cache.Store.{Store}
use mp_cache.Cache.Walk.{Visitor, walk_chain, walk_buckets, for_each}

module _ {C : Type 0} where
  walk_chain-append :
      (visit : Visitor C) (a b : List Entry) (context : C)
      → walk_chain visit (a ++ b) context ≡ (
          if (walk_chain visit a context).0
          then walk_chain visit b (walk_chain visit a context).1
          else (false, (walk_chain visit a context).1))
  unfolding walk_chain
  walk_chain-append visit [] b context = refl
  walk_chain-append visit (e ∷ a) b context = elim (Bool-cases (visit e context).0) [
    | inl on ↦ rw on (walk_chain-append visit a b (visit e context).1)
    | inr off ↦ rw off
  ]

  walk_buckets-flatten :
      (visit : Visitor C) (cs : List (List Entry)) (context : C)
      → walk_buckets visit cs context ≡ walk_chain visit (flatten cs) context
  unfolding walk_buckets flatten walk_chain
  walk_buckets-flatten visit [] context = refl
  walk_buckets-flatten visit (c ∷ cs) context =
      rw (walk_chain-append visit c (flatten cs) context, walk_buckets-flatten visit cs) refl

  -- The nested loops visit the entries one after another, and stop where one loop would.
  pub for_each-flatten :
      (s : Store) (visit : Visitor C) (context : C)
      → for_each s visit context ≡ walk_chain visit (flatten s.buckets) context
  unfolding for_each
  for_each-flatten s visit context = walk_buckets-flatten visit s.buckets context

  -- A step that never stops, as a visitor.
  abbrev pub always : (C → Entry → C) → Visitor C
  always step e context = (true, step context e)

  unfoldable pub fold_entries : (C → Entry → C) → C → List Entry → C
  fold_entries step context [] = context
  fold_entries step context (e ∷ c) = fold_entries step (step context e) c

  walk_chain-always :
      (step : C → Entry → C) (c : List Entry) (context : C)
      → walk_chain (always step) c context ≡ (true, fold_entries step context c)
  unfolding walk_chain fold_entries
  walk_chain-always step [] context = refl
  walk_chain-always step (e ∷ c) context = walk_chain-always step c (step context e)

  -- A visitor that never stops is applied to every entry once, in bucket order.
  pub for_each-always :
      (s : Store) (step : C → Entry → C) (context : C)
      → for_each s (always step) context ≡ (true, fold_entries step context (flatten s.buckets))
  for_each-always s step context =
      for_each-flatten s (always step) context ∙ walk_chain-always step (flatten s.buckets) context
