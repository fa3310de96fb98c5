-- ===== src/Nodes/Calls/Completion.antt =====
-- The goroutines can always come to their end.
use std.Path.{subst}
use native.Mathlib.Decide.{dec_lt}
use sample_arc_autoshift_kar.Base.{
  ℕ, zero, suc, ◌<◌, ◌≤◌, String, true, false, List, [], ◌∷◌, ◌≡◌, ◌≢◌, refl, sym, ◌∙◌, arith,
  Bool-cases, inl, inr, nat_eq, length,
}
use sample_arc_autoshift_kar.Store.{NodeInfo}
use sample_arc_autoshift_kar.Nodes.Api.{NodeApi}
use sample_arc_autoshift_kar.Nodes.Calls.{
  Calls, done, get, update, batch_calls, batch_of, Running, at, Call, reads, writes, Reach, here,
  next, started,
}

module _ {S : Type 0} (api : NodeApi S) (from : Running S) where
  -- A state that follows `r`, in which goroutine `i` has ended and the others stand where they stood.
  record Drained (i : ℕ) (r : Running S) : Type 0 where
    state : Running S
    reach : Reach api from state
    over : state.left i ≡ done
    others : (j : ℕ) → nat_eq i j ≡ false → state.left j ≡ r.left j

  -- One call of goroutine `i`, and then the rest.
  go_on :
      (i : ℕ) (r : Running S) (t : Calls) (s : S)
      → Drained i (record { cluster = s; left = at r.left i t })
      → Drained i r
  go_on i r t s d = record {
    state = d.state;
    reach = d.reach;
    over = d.over;
    others = λ j e. d.others j e ∙ rw e;
  }

  nat_eq_refl : (i : ℕ) → nat_eq i i ≡ true
  nat_eq_refl i = ground arith

  drain : (t : Calls) (i : ℕ) (r : Running S) → Reach api from r → r.left i ≡ t → Drained i r
  drain done i r reach e = record { state = r; reach = reach; over = e; others = λ j h. refl }
  drain (get k f) i r reach e =
      let t = f (api.get k r.cluster) in
      let call : Call api (r.left i) r.cluster t r.cluster = rw e reads in
      go_on i r t r.cluster
        (drain (f (api.get k r.cluster)) i _ (next i reach call) (rw nat_eq_refl))
  drain (update n f) i r reach e =
      let t = f (api.update n r.cluster).0 in
      let s = (api.update n r.cluster).1 in
      let call : Call api (r.left i) r.cluster t s = rw e writes in
      go_on i r t s (drain (f (api.update n r.cluster).0) i _ (next i reach call) (rw nat_eq_refl))

  -- A state in which the first `n` goroutines have ended.
  record AllDrained (n : ℕ) (r : Running S) : Type 0 where
    state : Running S
    reach : Reach api from state
    over : (i : ℕ) → i < n → state.left i ≡ done
    others : (i : ℕ) → n ≤ i → state.left i ≡ r.left i

  drain_all : (n : ℕ) (r : Running S) → Reach api from r → AllDrained n r
  drain_all zero r reach = record {
    state = r;
    reach = reach;
    over = λ i h. absurd (omega arith);
    others = λ i h. refl;
  }
  drain_all (suc n) r reach =
      let a : AllDrained n r = drain_all n r reach in
      let d : Drained n a.state = drain (a.state.left n) n a.state a.reach refl in
      record {
        state = d.state;
        reach = d.reach;
        over = λ i h. elim (Bool-cases (nat_eq n i)) [
          | inl e ↦ subst (λ x. d.state.left x ≡ done) (ground (arith, e)) d.over
          | inr e ↦ d.others i e ∙ a.over i (ground (arith, e, h))
        ];
        others = λ i h. d.others i (ground (arith, h)) ∙ a.others i (omega arith);
      }

batch_of-eq-nil : (bs : List (List NodeInfo)) (i : ℕ) → length bs ≤ i → batch_of bs i ≡ []
unfolding batch_of
batch_of-eq-nil [] i h = refl
batch_of-eq-nil (b ∷ bs) zero h = absurd (omega arith)
batch_of-eq-nil (b ∷ bs) (suc i) h = batch_of-eq-nil bs i (omega arith)

module _ {S : Type 0} (api : NodeApi S) (body : String → Calls → Calls) (bs : List (List NodeInfo))
    (s : S) where
  no-Call : {t : Calls} {u : S} {t' : Calls} {u' : S} → Call api t u t' u' → t ≢ done
  no-Call reads e = cc
  no-Call writes e = cc

  left_over :
      {r : Running S} → Reach api (started body bs s) r → (i : ℕ) → length bs ≤ i → r.left i ≡ done
  unfolding batch_calls
  left_over here i h = rw (batch_of-eq-nil bs i h)
  left_over (next {r} k reach call) i h = elim (Bool-cases (nat_eq k i)) [
    | inl e ↦ absurd (
        no-Call call (subst (λ x. r.left x ≡ done) (sym (ground (arith, e))) (left_over reach i h)))
    | inr e ↦ rw e (left_over reach i h)
  ]

  -- From every state that the goroutines can reach they can all come to their end, whatever calls to
  -- the API fail.
  pub calls_complete :
      (r : Running S)
      → Reach api (started body bs s) r
      → (t : Running S) × Reach api (started body bs s) t × ((i : ℕ) → t.left i ≡ done)
  calls_complete r reach =
      let a : AllDrained api (started body bs s) (length bs) r =
        drain_all api (started body bs s) (length bs) r reach in
      (
        a.state,
        a.reach,
        λ i. elim (dec_lt i (length bs)) [
          | yes h ↦ a.over i h
          | no h ↦ a.others i (omega arith) ∙ left_over reach i (omega arith)
        ],
      )
