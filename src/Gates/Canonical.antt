-- ===== src/Gates/Canonical.antt =====
-- A canonical text that determines the texts of a decision.
use Prim.Native.Char.{code}
use the_pass.Prelude.{String, Bool, false, ◌≡◌, refl, ap, ◌==◌, ◌∙◌}
use the_pass.Json.{is_text, object, Value, text, get}
use the_pass.Prelude.{String}
use the_pass.Json.{Value, text, object, get}

-- A text so marked that it can be told from what follows it.
unfoldable pub mark : String → String → String
mark String.[] rest = String.◌∷◌ "0" rest
mark (String.◌∷◌ c s) rest = String.◌∷◌ "1" (String.◌∷◌ c (mark s rest))

unfoldable pub show : Value → String → String
unfolding mark
show (text s) rest = String.◌∷◌ "t" (mark s rest)
show v rest = String.◌∷◌ "o" rest

-- The canonical text of a document: its texts under four keys.
abbrev pub canonical : Value → String
canonical (object f) =
    show (get "gate" f)
      (show (get "gate_id" f) (show (get "gate_result" f) (show (get "package_id" f) "")))
canonical v = "value"

-- The text behind the marks, and what follows it.
tail_of : String → String
tail_of String.[] = ""
tail_of (String.◌∷◌ c s) = s

is_one : String → Bool
is_one String.[] = false
is_one (String.◌∷◌ c s) = code c == 49

-- The first character of one text before another text.
with_first : String → String → String
with_first String.[] r = r
with_first (String.◌∷◌ c s) r = String.◌∷◌ c r

mark-injective : (s t r q : String) → mark s r ≡ mark t q → (s ≡ t) × (r ≡ q)
unfolding mark tail_of is_one with_first
mark-injective String.[] String.[] r q e = (refl, ap tail_of e)
mark-injective (String.◌∷◌ c s) (String.◌∷◌ d t) r q e =
    let f = ap tail_of e in
    let p = mark-injective s t r q (ap tail_of f) in
    (ap (λ x. with_first x s) f ∙ ap (String.◌∷◌ d) p.0, p.1)
mark-injective String.[] (String.◌∷◌ d t) r q e = let x = ap is_one e in cc
mark-injective (String.◌∷◌ c s) String.[] r q e = let x = ap is_one e in cc

is_t : String → Bool
is_t String.[] = false
is_t (String.◌∷◌ c s) = code c == 116

-- A shown value determines its text and what follows it.
pub show-injective :
    (v u : Value) (r q : String)
    → show v r ≡ show u q
    → ((s : String) → is_text s v ≡ is_text s u) × (r ≡ q)
unfolding show tail_of is_t
show-injective (text a) (text b) r q e =
    let p = mark-injective a b r q (ap tail_of e) in (λ s. ap (λ x. is_text s (text x)) p.0, p.1)
show-injective (text a) u r q e = let x = ap is_t e in cc
show-injective v (text b) r q e = let x = ap is_t e in cc
show-injective v u r q e = (λ s. refl, ap tail_of e)
