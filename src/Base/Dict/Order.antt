-- ===== src/Base/Dict/Order.antt =====
-- Two maps with the same lookups hold the same entries, in some order.
use mathlib.Core.Path.{◌≡◌, refl, sym, ◌∙◌}
use mathlib.Core.Option.{none, some}
use mathlib.Core.List.{[], ◌∷◌, Perm}
use mathlib.Core.List.Perm
use mathlib.Core.Bool.{true, false}
use mathlib.Core.Logic.{inl, inr}
use Prim.Native.String.{String}
use native.Mathlib.Omega.{arith}
use text.Mathlib.Text.{◌==◌}
use text.Mathlib.TextEquality.{eq_iff}
use text.Mathlib.TextPositions.{eq_refl}
use sample_arc_autoshift_kar.Base.Tests.{Bool-cases}
use sample_arc_autoshift_kar.Base.Dict.{
  Dict, Distinct, lookup, delete, lookup-delete, delete-Distinct,
}

module _ {ℓ} {V : Type ℓ} where
  delete_absent : (k : String) (m : Dict V) → lookup k m ≡ none → delete k m ≡ m
  unfolding lookup delete
  delete_absent k [] h = refl
  delete_absent k ((i, w) ∷ m) h = ground (arith, delete_absent k m)

  -- The entry of a key that is there, when it stands first.
  delete_head :
      (k i : String) (v w : V) (m : Dict V)
      → Distinct ((i, w) ∷ m)
      → lookup k ((i, w) ∷ m) ≡ some v
      → (i == k) ≡ true
      → ◌≡◌ {A = Dict V} ((k, v) ∷ delete k ((i, w) ∷ m)) ((i, w) ∷ m)
  unfolding lookup delete
  delete_head k i v w m d h same = ground (arith, eq_iff i k, delete_absent k m)

  delete_later :
      (k i : String) (v w : V) (m : Dict V)
      → lookup k ((i, w) ∷ m) ≡ some v
      → (i == k) ≡ false
      → (lookup k m ≡ some v)
        × (◌≡◌ {A = Dict V} ((k, v) ∷ delete k ((i, w) ∷ m)) ((k, v) ∷ (i, w) ∷ delete k m))
  unfolding lookup delete
  delete_later k i v w m h other = (ground arith, ground arith)

  -- A key that is there can be moved to the front.
  perm-delete :
      (k : String) (v : V) (m : Dict V)
      → Distinct m
      → lookup k m ≡ some v
      → Perm ((k, v) ∷ delete k m) m
  perm-delete k v [] d h = unfold lookup in absurd (cc h)
  perm-delete k v ((i, w) ∷ m) d h = elim (Bool-cases (i == k)) [
    | inl same ↦ rw (delete_head k i v w m d h same) (Perm.refl _)
    | inr other ↦
        let (later, front) = delete_later k i v w m h other in
        rw front (Perm.trans (Perm.swap _ _ _) (Perm.cons _ (perm-delete k v m d.1 later)))
  ]

  lookup_tail :
      (i : String) (w : V) (m n : Dict V)
      → Distinct ((i, w) ∷ m)
      → ((k : String) → lookup k ((i, w) ∷ m) ≡ lookup k n)
      → (k : String) → lookup k m ≡ lookup k (delete i n)
  unfolding lookup
  lookup_tail i w m n d h k = rw lookup-delete (ground (arith, h k, eq_iff i k))

  lookup_head : (i : String) (w : V) (m : Dict V) → lookup i ((i, w) ∷ m) ≡ some w
  unfolding lookup
  lookup_head i w m = rw eq_refl

  -- Two maps without repeated keys that agree at every key are permutations of one another.
  pub perm-of-lookup :
      (m n : Dict V) → Distinct m → Distinct n → ((k : String) → lookup k m ≡ lookup k n) → Perm m n
  perm-of-lookup [] [] dm dn h = Perm.refl []
  perm-of-lookup [] ((i, w) ∷ n) dm dn h = unfold lookup in absurd (cc (h i, lookup_head i w n))
  perm-of-lookup ((i, w) ∷ m) n dm dn h =
      Perm.trans
        (Perm.cons (i, w)
          (perm-of-lookup m (delete i n) dm.1 (delete-Distinct i n dn) (lookup_tail i w m n dm h)))
        (perm-delete i w n dn (sym (h i) ∙ lookup_head i w m))
