-- ===== src/Update/Loop.antt =====
-- A loop over the listed pools, seen from one pool of the cluster.
use mathlib.Core.Option
use sample_arc_autoshift_kar.Base.{
  String, false, Option, none, some, List, [], ◌∷◌, ◌==◌, eq_iff, ◌≡◌, ap, ◌∙◌, arith, ◌⊎◌,
  Bool-cases, inl, inr,
}
use sample_arc_autoshift_kar.Pools.{PoolItem}
use sample_arc_autoshift_kar.Pools.Api.{find_pool, IsUnique}

-- What a loop may make of a pool: one that is not listed stays as it was before, and of a listed one
-- it makes what `R` allows.
abbrev pub Outcome :
    (PoolItem → Option PoolItem → Type 0)
    → Option PoolItem
    → Option PoolItem
    → Option PoolItem
    → Type 0
Outcome R none before after = after ≡ before
Outcome R (some p) before after = R p after

-- The list shows the pool as it is, or does not show it.
abbrev pub IsShown : Option PoolItem → Option PoolItem → Type 0
IsShown listed held = (listed ≡ none) ⊎ (listed ≡ held)

module _ {S : Type 0} (pool_at : String → S → Option PoolItem) (k : String)
    (R : PoolItem → Option PoolItem → Type 0) (loop : List PoolItem → S → S)
    (body : PoolItem → S → S) (base : (s : S) → loop [] s ≡ s)
    (next : (p : PoolItem) (ps : List PoolItem) (s : S) → loop (p ∷ ps) s ≡ loop ps (body p s))
    (others : (p : PoolItem) (s : S) → (p.name == k) ≡ false → pool_at k (body p s) ≡ pool_at k s)
    (own : (p : PoolItem) (s : S)
      → p.name ≡ k
      → pool_at k s ≡ some p
      → R p (pool_at k (body p s))) where
  -- A pool that the rest of the list does not name stays as it is.
  unlisted :
      (ps : List PoolItem) (s : S) → find_pool k ps ≡ none → pool_at k (loop ps s) ≡ pool_at k s
  unfolding find_pool
  unlisted [] s h = ap (pool_at k) (base s)
  unlisted (p ∷ ps) s h =
      ap (pool_at k) (next p ps s)
      ∙ unlisted ps (body p s) (ground (arith, h))
      ∙ others p s (ground (arith, h))

  pub loop-Outcome :
      (ps : List PoolItem) (s : S)
      → IsUnique ps
      → IsShown (find_pool k ps) (pool_at k s)
      → Outcome R (find_pool k ps) (pool_at k s) (pool_at k (loop ps s))
  unfolding find_pool
  loop-Outcome [] s u shown = ap (pool_at k) (base s)
  loop-Outcome (p ∷ ps) s u shown = elim (Bool-cases (p.name == k)) [
    | inl e ↦
        let named : p.name ≡ k = (eq_iff p.name k).0 e in
        let held : pool_at k s ≡ some p = ground (arith, e, shown) in
        let rest : find_pool k ps ≡ none = ground (arith, named, u.0) in
        rw (e, next p ps s, unlisted ps (body p s) rest) (own p s named held)
    | inr e ↦
        rw (e, next p ps s, ← others p s e)
          (loop-Outcome ps (body p s) u.1 (ground (arith, e, shown, others p s e)))
  ]

-- A loop that maps the pools.
pub Outcome-map :
    (f : PoolItem → PoolItem) (o held after : Option PoolItem)
    → Outcome (λ p q. q ≡ some (f p)) o held after
    → o ≡ held
    → after ≡ Option.map f held
Outcome-map f none held after r shown = r ∙ ground (arith, shown)
Outcome-map f (some p) held after r shown = r ∙ ground (arith, shown)
