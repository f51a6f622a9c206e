-- ===== src/Workflow/Reach.antt =====
-- orchestration.py: the stages that can be reached from `preflight`, by a worklist.
use the_pass.Prelude.{
  ℕ, zero, suc, String, List, [], ◌∷◌, mem_text, lookup, Option, none, some, length, if◌then◌else◌,
}

-- The names seen so far, and those still to be expanded.
pub record Frontier : Type 0 where
  pub reachable : List String
  pub pending : List String

-- A destination that is new is added to both.
abbrev pub meet : String → Frontier → Frontier
meet d f =
    if mem_text d f.reachable
    then f
    else record { reachable = d ∷ f.reachable; pending = d ∷ f.pending }

-- The inner loop.
unfoldable pub expand : List String → Frontier → Frontier
expand [] f = f
expand (d ∷ ds) f = expand ds (meet d f)

abbrev pub transitions_of : List (String × List String) → String → List String
transitions_of graph name = elim (lookup name graph) [ none ↦ [] | some ds ↦ ds ]

-- The outer loop; `none` means that the fuel ran out. `pending.pop()` takes the newest name.
unfoldable pub explore : ℕ → List (String × List String) → Frontier → Option (List String)
explore zero graph f = none
explore (suc fuel) graph f = elim f.pending [
  | [] ↦ some f.reachable
  | current ∷ rest ↦
      explore fuel graph (expand (transitions_of graph current) (record f { pending = rest }))
]

-- A stage is expanded once, so the fuel is the number of stages and one.
unfoldable pub reachable_stages : List (String × List String) → List String
reachable_stages graph =
    elim (explore (suc (suc (length graph))) graph
      (record { reachable = "preflight" ∷ []; pending = "preflight" ∷ [] })) [
        | none ↦ []
        | some names ↦ names
      ]
