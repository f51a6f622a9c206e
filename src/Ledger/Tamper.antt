-- ===== src/Ledger/Tamper.antt =====
-- Two ledgers that verify and end in the same hash hold the same entries, up to a collision.
use mathlib.Core.List.{reverse, reverse_aux, reverse-reverse}
use the_pass.Prelude.{
  String, List, [], ◌∷◌, map, ◌≡◌, ◌⊎◌, inl, inr, refl, sym, ◌∙◌, ap, String-discrete,
}
use the_pass.Json.{Value, null, text, Fields, get}
use the_pass.Ledger.Host.{Host}
use the_pass.Ledger.Entries.{hash_entry, verify_ledger_entries}
use the_pass.Ledger.Chain.{IsChain, nil, link, verify_ledger_entries-eq-nil_iff}
use the_pass.Ledger.Head.{
  head_hash_from, head_hash, IsHash, is_null, is_text, sealed_text, Collision, ShowsPrevious,
}

-- A ledger read from its newest entry back.
data IsLinked (h : Host) : Value → List Fields → Type 0 where
  start : IsLinked h null []
  before :
      {v : Value} {e : Fields} {es : List Fields}
      → get "previous_hash" e ≡ v
      → IsLinked h v es
      → IsLinked h (text (hash_entry h e)) (e ∷ es)

IsLinked-IsHash : {h : Host} {v : Value} {es : List Fields} → IsLinked h v es → IsHash v
IsLinked-IsHash start = is_null
IsLinked-IsHash (before p l) = is_text _

IsChain-IsLinked :
    (h : Host) {v : Value} {es : List Fields} (acc : List Fields)
    → IsChain h v es
    → IsLinked h v acc
    → IsLinked h (head_hash_from v es) (reverse_aux es acc)
IsChain-IsLinked h acc nil l = l
IsChain-IsLinked h acc (link {e = e} s p q c) l = rw q (IsChain-IsLinked h (e ∷ acc) c (before p l))

same_hash : (h : Host) (s t : String) → h.sha256_text s ≡ h.sha256_text t → (s ≡ t) ⊎ Collision h
same_hash h s t p = elim (String-discrete s t) [ yes e ↦ inl e | no n ↦ inr (s, t, n, p) ]

IsLinked-same :
    (h : Host)
    → ShowsPrevious h
    → {v w : Value} {es fs : List Fields} → IsLinked h v es
    → IsLinked h w fs
    → v ≡ w
    → (map (sealed_text h) es ≡ map (sealed_text h) fs) ⊎ Collision h
unfolding hash_entry
IsLinked-same h shows start start p = inl refl
IsLinked-same h shows start (before q l) p = cc
IsLinked-same h shows (before q l) start p = cc
IsLinked-same h shows (before {v} {e} {es} q l) (before {v = w} {e = f} {es = fs} r m) p =
    elim (same_hash h (sealed_text h e) (sealed_text h f) (cc)) [
      | inr c ↦ inr c
      | inl same ↦
          elim (IsLinked-same h shows l m
            (shows e f v w (IsLinked-IsHash l) (IsLinked-IsHash m) q r same)) [
              | inr c ↦ inr c
              | inl rest ↦ inl (cc)
            ]
    ]

map-reverse_aux :
    (f : Fields → String) (es acc : List Fields)
    → map f (reverse_aux es acc) ≡ reverse_aux (map f es) (map f acc)
map-reverse_aux f [] acc = refl
map-reverse_aux f (e ∷ es) acc = map-reverse_aux f es (e ∷ acc)

map-eq_of_reversed :
    (f : Fields → String) (es fs : List Fields)
    → map f (reverse es) ≡ map f (reverse fs)
    → map f es ≡ map f fs
map-eq_of_reversed f es fs p =
    sym (reverse-reverse (map f es))
    ∙ ap reverse (sym (map-reverse_aux f es []) ∙ p ∙ map-reverse_aux f fs [])
    ∙ reverse-reverse (map f fs)

-- Two ledgers that verify and whose newest entries carry the same hash hold, entry for entry, the
-- same hashed texts, or else two different texts with one SHA-256 digest are exhibited. It rests
-- on the canonical text of an entry determining its previous hash.
pub head_hash-pins_ledger :
    (h : Host) (es fs : List Fields)
    → ShowsPrevious h
    → verify_ledger_entries h es ≡ []
    → verify_ledger_entries h fs ≡ []
    → head_hash es ≡ head_hash fs
    → (map (sealed_text h) es ≡ map (sealed_text h) fs) ⊎ Collision h
head_hash-pins_ledger h es fs shows pe pf same = elim pinned [
  | inl p ↦ inl (map-eq_of_reversed (sealed_text h) es fs p)
  | inr c ↦ inr c
]
  where
    linked :
        (gs : List Fields)
        → verify_ledger_entries h gs ≡ []
        → IsLinked h (head_hash gs) (reverse gs)
    linked gs p = IsChain-IsLinked h [] ((verify_ledger_entries-eq-nil_iff h gs).0 p) start

    pinned : (map (sealed_text h) (reverse es) ≡ map (sealed_text h) (reverse fs)) ⊎ Collision h
    pinned = IsLinked-same h shows (linked es pe) (linked fs pf) same
