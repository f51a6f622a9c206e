-- ===== src/Workflow/Fuel.antt =====
-- The worklist of Reach ends within its fuel, and then is exact.
use mathlib.Core.Path.{subst}
use the_pass.Prelude.{
  ℕ, zero, suc, ◌+◌, ◌≤◌, ◌<◌, String, true, false, not, List, [], ◌∷◌, ◌≡◌, ◌↔◌, inl, refl, sym,
  ap, arith, mem_text, eq_iff, eq_refl, Option, none, some, length, count_of, keys,
}
use the_pass.Workflow.Reach.{Frontier, meet, expand, transitions_of, explore, reachable_stages}
use the_pass.Workflow.Reached.{IsReached, start, explore-exact, IsExploring}

-- The stages not seen yet.
abbrev unseen : List String → List String → ℕ
unseen names r = count_of (λ n. not (mem_text n r)) names

unseen-cons-le : (names r : List String) (x : String) → unseen names (x ∷ r) ≤ unseen names r
unseen-cons-le [] r x = omega arith
unseen-cons-le (n ∷ names) r x = ground (arith, unseen-cons-le names r x)

unseen-cons-lt :
    (names r : List String) (x : String)
    → mem_text x names ≡ true
    → mem_text x r ≡ false
    → unseen names (x ∷ r) < unseen names r
unseen-cons-lt [] r x i o = cc
unseen-cons-lt (n ∷ names) r x i o =
    ground
      (arith, eq_iff x n, eq_iff n x, eq_refl n, unseen-cons-lt names r x, unseen-cons-le names r x)

-- How much work is left.
abbrev work : List String → Frontier → ℕ
work names f = unseen names f.reachable + length f.pending

meet-work :
    (names : List String) (x : String) (f : Frontier)
    → mem_text x names ≡ true
    → work names (meet x f) ≤ work names f
meet-work names x f i = ground (arith, unseen-cons-lt names f.reachable x i)

expand-work :
    (names ds : List String) (f : Frontier)
    → ((d : String) → mem_text d ds ≡ true → mem_text d names ≡ true)
    → work names (expand ds f) ≤ work names f
unfolding expand
expand-work names [] f h = omega arith
expand-work names (x ∷ ds) f h =
    let a = meet-work names x f (h x (ground (arith, eq_refl x))) in
    let b = expand-work names ds (meet x f) (λ d i. h d (ground arith)) in omega arith

unseen-le : (names r : List String) → unseen names r ≤ length names
unseen-le [] r = omega arith
unseen-le (n ∷ names) r = ground (arith, unseen-le names r)

-- Every transition of the graph leads to one of its stages.
abbrev pub IsClosed : List (String × List String) → Type 0
IsClosed graph =
    (s d : String) → mem_text d (transitions_of graph s) ≡ true → mem_text d (keys graph) ≡ true

explore-some :
    (graph : List (String × List String)) (fuel : ℕ) (r p : List String)
    → IsClosed graph
    → work (keys graph) (record { reachable = r; pending = p }) < fuel
    → (names : List String) × (explore fuel graph (record { reachable = r; pending = p })
        ≡ some names)
unfolding explore
explore-some graph zero r p h lt = absurd (omega arith)
explore-some graph (suc fuel) r [] h lt = (r, refl)
explore-some graph (suc fuel) r (c ∷ p) h lt =
    let f : Frontier = record { reachable = r; pending = p } in
    let g = expand (transitions_of graph c) f in
    let b = expand-work (keys graph) (transitions_of graph c) f (h c) in
    explore-some graph fuel g.reachable g.pending h (omega arith)

length-keys : (graph : List (String × List String)) → length (keys graph) ≡ length graph
length-keys [] = refl
length-keys ((n, ds) ∷ graph) = omega (arith, length-keys graph)

initial-IsExploring :
    (graph : List (String × List String))
    → IsExploring graph (record { reachable = "preflight" ∷ []; pending = "preflight" ∷ [] })
initial-IsExploring graph = record {
  sound = only;
  pending_sound = only;
  starts = refl;
  closed = λ s i. inl i;
}
  where
    only : (d : String) → mem_text d ("preflight" ∷ []) ≡ true → IsReached graph d
    only d i = subst (IsReached graph) (sym ((eq_iff d "preflight").0 (ground arith))) start

-- In a graph whose transitions stay among its stages, the stages that the worklist of the policy
-- check finds are exactly those that a chain of transitions leads to from `preflight`.
pub reachable_stages-exact :
    (graph : List (String × List String)) (d : String)
    → IsClosed graph
    → (mem_text d (reachable_stages graph) ≡ true) ↔ IsReached graph d
unfolding reachable_stages
reachable_stages-exact graph d h =
    let q = unseen-le (keys graph) ("preflight" ∷ []) in
    let k = length-keys graph in
    let found =
      explore-some graph (suc (suc (length graph))) ("preflight" ∷ []) ("preflight" ∷ []) h
        (omega arith) in
    let e : reachable_stages graph ≡ found.0 =
      ap (λ (o : Option (List String)). elim o [ none ↦ [] | some names ↦ names ]) found.1 in
    rw e (
      explore-exact graph (suc (suc (length graph))) ("preflight" ∷ []) ("preflight" ∷ []) d
        (initial-IsExploring graph) found.1)
