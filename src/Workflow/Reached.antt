-- ===== src/Workflow/Reached.antt =====
-- The worklist of Reach finds exactly the stages that transitions lead to from `preflight`.
use mathlib.Core.Path.{subst}
use the_pass.Prelude.{
  ℕ, zero, suc, String, true, List, [], ◌∷◌, ◌≡◌, ◌⊎◌, ◌↔◌, inl, inr, arith, mem_text, str_eq,
  eq_iff, eq_refl, some, Bool-cases,
}
use the_pass.Workflow.Reach.{Frontier, meet, expand, transitions_of, explore}

-- A stage that a chain of transitions leads to.
pub data IsReached (graph : List (String × List String)) : String → Type 0 where
  start : IsReached graph "preflight"
  follow :
      {s d : String}
      → IsReached graph s
      → mem_text d (transitions_of graph s) ≡ true
      → IsReached graph d

abbrev pub In : String → List String → Type 0
In d ds = mem_text d ds ≡ true

module _ (d : String) where
  -- Nothing is lost, and every destination is met.
  record IsExpanded (ds : List String) (f g : Frontier) : Type 0 where
    keeps : In d f.reachable → In d g.reachable
    waits : In d f.pending → In d g.pending
    meets : In d ds → In d g.reachable
    new : In d g.reachable → (In d f.reachable) ⊎ (In d ds)
    queued : In d g.pending → (In d f.pending) ⊎ (In d ds)
    fresh : In d g.reachable → (In d f.reachable) ⊎ (In d g.pending)

  meet-IsExpanded : (x : String) (f : Frontier) → IsExpanded (x ∷ []) f (meet x f)
  meet-IsExpanded x f = ground (arith, eq_iff d x, eq_refl x)

  expand-IsExpanded : (ds : List String) (f : Frontier) → IsExpanded ds f (expand ds f)
  unfolding expand
  expand-IsExpanded [] f = ground arith
  expand-IsExpanded (x ∷ ds) f =
      ground (arith, meet-IsExpanded x f, expand-IsExpanded ds (meet x f))

module _ (graph : List (String × List String)) where
  -- What holds of the frontier before each round.
  pub record IsExploring (f : Frontier) : Type 0 where
    pub sound : (d : String) → In d f.reachable → IsReached graph d
    pub pending_sound : (d : String) → In d f.pending → IsReached graph d
    pub starts : In "preflight" f.reachable
    pub closed :
        (s : String)
        → In s f.reachable
        → (In s f.pending) ⊎ ((d : String) → In d (transitions_of graph s) → In d f.reachable)

  round : String → List String → List String → Frontier
  round c r p = expand (transitions_of graph c) (record { reachable = r; pending = p })

  round-IsExploring :
      (c : String) (r p : List String)
      → IsExploring (record { reachable = r; pending = c ∷ p })
      → IsExploring (round c r p)
  unfolding round
  round-IsExploring c r p h = record {
    sound = λ d i. elim ((step d).new i) [
      | inl j ↦ h.sound d j
      | inr j ↦ follow (h.pending_sound c (ground (arith, eq_refl c))) j
    ];
    pending_sound = λ d i. elim ((step d).queued i) [
      | inl j ↦ h.pending_sound d (ground arith)
      | inr j ↦ follow (h.pending_sound c (ground (arith, eq_refl c))) j
    ];
    starts = (step "preflight").keeps h.starts;
    closed = λ s i. elim ((step s).fresh i) [
      | inr j ↦ inl j
      | inl j ↦ elim (h.closed s j) [
        | inr k ↦ inr (λ d m. (step d).keeps (k d m))
        | inl k ↦ elim (waiting s k) [
          | inl e ↦ inr (λ d m. (step d).meets (subst (λ n. In d (transitions_of graph n)) e m))
          | inr w ↦ inl ((step s).waits w)
        ]
      ]
    ];
  }
    where
      step :
          (d : String)
          → IsExpanded d
              (transitions_of graph c)
              (record { reachable = r; pending = p })
              (expand (transitions_of graph c) (record { reachable = r; pending = p }))
      step d = expand-IsExpanded d (transitions_of graph c) (record { reachable = r; pending = p })

      waiting : (s : String) → In s (c ∷ p) → (s ≡ c) ⊎ In s p
      waiting s k = elim (Bool-cases (str_eq s c)) [
        | inl e ↦ inl ((eq_iff s c).0 e)
        | inr e ↦ inr (ground arith)
      ]

  pub explore-exact :
      (fuel : ℕ) (r p : List String) {names : List String} (d : String)
      → IsExploring (record { reachable = r; pending = p })
      → explore fuel graph (record { reachable = r; pending = p }) ≡ some names
      → In d names ↔ IsReached graph d
  unfolding explore round
  explore-exact zero r p d h e = cc
  explore-exact (suc fuel) r [] {names} d h e =
      let same : r ≡ names = cc in rw (← same) (h.sound d, complete d)
    where
      complete : (d : String) → IsReached graph d → In d r
      complete d start = h.starts
      complete d (follow {s} w m) = elim (h.closed s (complete s w)) [
        | inl impossible ↦ cc
        | inr k ↦ k d m
      ]
  explore-exact (suc fuel) r (c ∷ p) d h e =
      explore-exact fuel (round c r p).reachable (round c r p).pending d (round-IsExploring c r p h)
        e
