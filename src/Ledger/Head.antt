-- ===== src/Ledger/Head.antt =====
-- The hash of the newest entry, and what it says of the whole ledger.
use the_pass.Prelude.{String, List, [], ◌∷◌, ◌≡◌, ◌≢◌}
use the_pass.Json.{Value, null, text, object, Fields, get, remove}
use the_pass.Ledger.Host.{Host}

-- `entries[-1]["entry_hash"] if entries else None`, over the hash `v` of the entry before.
abbrev pub head_hash_from : Value → List Fields → Value
head_hash_from v [] = v
head_hash_from v (e ∷ es) = head_hash_from (get "entry_hash" e) es

abbrev pub head_hash : List Fields → Value
head_hash es = head_hash_from null es

-- `None` or a text.
pub data IsHash : Value → Type 0 where
  is_null : IsHash null
  is_text : (s : String) → IsHash (text s)

-- What `hash_entry` hashes.
abbrev pub sealed_text : Host → Fields → String
sealed_text h e = h.canonical_json (object (remove "entry_hash" e))

-- Two different texts with one digest.
abbrev pub Collision : Host → Type 0
Collision h = (s : String) × (t : String) × (s ≢ t) × (h.sha256_text s ≡ h.sha256_text t)

-- `json.dumps` writes the previous hash into the text, so the text determines it.
abbrev pub ShowsPrevious : Host → Type 0
ShowsPrevious h =
    (a b : Fields) (v w : Value)
    → IsHash v
    → IsHash w
    → get "previous_hash" a ≡ v
    → get "previous_hash" b ≡ w
    → sealed_text h a ≡ sealed_text h b
    → v ≡ w
