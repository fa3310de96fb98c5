-- ===== src/Process/Logic.antt =====
-- Proofs about code that may end the process: what a step does to the process, how it may fail, and
-- what holds where it does not.
use sample_arc_autoshift_kar.Base.{Bool, true, false, Option, none, some}
use sample_arc_autoshift_kar.Process.{
  Exit, Result, ok, err, Process, Action, pure, or_raise, ◌>>=◌, ◌>>◌, require,
}

module _ {S : Type 0} (R : Process S → Process S → Type 0) (E : Exit → Process S → Type 0) where
  -- The process moves by `R`; a failure with the process satisfies `E`, and a result `Q`.
  abbrev pub Ends :
      {A : Type 0} → (A → Process S → Type 0) → Process S → Result A × Process S → Type 0
  Ends Q p (ok a, p') = R p p' × Q a p'
  Ends Q p (err e, p') = R p p' × E e p'

  module _ (trans : (p q r : Process S) → R p q → R q r → R p r) where
    pub Ends-trans :
        {A : Type 0} (Q : A → Process S → Type 0) (p q : Process S) (x : Result A × Process S)
        → R p q
        → Ends Q q x
        → Ends Q p x
    Ends-trans Q p q (ok a, p') h (step, post) = (trans p q p' h step, post)
    Ends-trans Q p q (err e, p') h (step, post) = (trans p q p' h step, post)

    then-Ends :
        {A B : Type 0} (Q₁ : A → Process S → Type 0) (Q₂ : B → Process S → Type 0) (p : Process S)
        (x : Result A × Process S) (f : A → Action S B)
        → Ends Q₁ p x
        → ((a : A) (q : Process S) → Q₁ a q → Ends Q₂ q (f a q))
        → Ends Q₂ p (elim x.0 [ ok a ↦ f a x.1 | err e ↦ (err e, x.1) ])
    then-Ends Q₁ Q₂ p (ok a, q) f (step, post) next = Ends-trans Q₂ p q (f a q) step (next a q post)
    then-Ends Q₁ Q₂ p (err e, q) f ends next = ends

    -- A step and then another.
    pub bind-Ends :
        {A B : Type 0} (Q₁ : A → Process S → Type 0) (Q₂ : B → Process S → Type 0) (p : Process S)
        (m : Action S A) (f : A → Action S B)
        → Ends Q₁ p (m p)
        → ((a : A) (q : Process S) → Q₁ a q → Ends Q₂ q (f a q))
        → Ends Q₂ p ((m >>= f) p)
    bind-Ends Q₁ Q₂ p m f ends next = then-Ends Q₁ Q₂ p (m p) f ends next

  module _ (refl_R : (p : Process S) → R p p) {A : Type 0} (Q : A → Process S → Type 0)
      (p : Process S) where
    pub pure-Ends : (a : A) → Q a p → Ends Q p (pure a p)
    pure-Ends a post = (refl_R p, post)

    -- A check that leaves the process alone.
    pub require-Ends :
        (c : Bool) (e : Exit) (m : Action S A)
        → E e p
        → Ends Q p (m p)
        → Ends Q p ((require c e >> m) p)
    require-Ends true e m bad ends = ends
    require-Ends false e m bad ends = (refl_R p, bad)

    pub or_raise-Ends :
        {B : Type 0} (o : Option B) (e : Exit) (f : B → Action S A)
        → E e p
        → ((b : B) → Ends Q p (f b p))
        → Ends Q p ((or_raise o e >>= f) p)
    or_raise-Ends none e f bad ends = (refl_R p, bad)
    or_raise-Ends (some b) e f bad ends = ends b
