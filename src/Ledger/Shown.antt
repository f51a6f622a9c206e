-- ===== src/Ledger/Shown.antt =====
-- ledger.py: the texts that a gate entry shares with its decision, through their canonical texts.
use the_pass.Prelude.{
  String, true, false, Option, none, some, ◌≡◌, inl, inr, refl, ap, ◌∙◌, sym, str_eq, eq_iff,
  Bool-cases, if◌then◌else◌,
}
use the_pass.Prelude.Result.{Result, ok, >>=-eq-ok}
use the_pass.Json.{Value, text, object, Fields, get, insert, remove, is_text, text_or_empty}
use the_pass.Json.Laws.{get-insert, get-remove}
use the_pass.Ledger.Host.{Host}
use the_pass.Ledger.Issues.{Fault, LedgerError}
use the_pass.Ledger.Semantics.{build_gate_ledger_entry, compare_gate_entry}

-- The canonical text of a document determines the texts under a key.
abbrev pub Shows : Host → String → Type 0
Shows h k =
    (s : String) (a b : Fields)
    → h.canonical_json (object a) ≡ h.canonical_json (object b)
    → is_text s (get k a) ≡ is_text s (get k b)

-- The keys that say which decision was made.
pub record ShowsDecisions (h : Host) : Type 0 where
  pub gate : Shows h "gate"
  pub gate_id : Shows h "gate_id"
  pub gate_result : Shows h "gate_result"
  pub package_id : Shows h "package_id"

-- The texts of the entry that the decision gives.
build_gate_ledger_entry-texts :
    (h : Host) (d : Fields) (path pkg : String) (run : Fields) (l : String) (v : Value) (b : Fields)
    → build_gate_ledger_entry h d path pkg run l v ≡ ok b
    → (get "gate" b ≡ get "gate_id" d)
      × (get "gate_result" b ≡ get "gate_result" d)
      × (get "package_id" b ≡ get "package_id" d)
unfolding build_gate_ledger_entry
build_gate_ledger_entry-texts h d path pkg run l v b q =
    let a = >>=-eq-ok _ _ q in
    let f = ok-injective _ _ a.2 in
    (sym (ap (get "gate") f), sym (ap (get "gate_result") f), sym (ap (get "package_id") f))
  where
    ok-injective : (x y : Fields) → ◌≡◌ {A = Result LedgerError Fields} (ok x) (ok y) → x ≡ y
    ok-injective x y p = cc

-- `if text == other: return none; return some(fault)`
same_text :
    (s t : String) (f : Fault)
    → ◌≡◌ {A = Result LedgerError (Option Fault)}
        (ok (if str_eq s t then none else some f))
        (ok none)
    → s ≡ t
same_text s t f q = elim (Bool-cases (str_eq s t)) [
  | inl b ↦ (eq_iff s t).0 b
  | inr b ↦ let y : ok (some f) ≡ ok none = rw b at q in cc
]

-- Reading a built entry at a key, through the canonical texts.
at_key :
    (h : Host) (k s : String) (b e : Fields) (v x : Value)
    → Shows h k
    → str_eq k "previous_hash" ≡ false
    → str_eq k "entry_hash" ≡ false
    → h.canonical_json (object (insert "previous_hash" v b))
      ≡ h.canonical_json (object (remove "entry_hash" e))
    → get k b ≡ x
    → is_text s (get k e) ≡ is_text s x
at_key h k s b e v x shows p q c t =
    let l : get k (insert "previous_hash" v b) ≡ x = get-insert k "previous_hash" v b ∙ rw p t in
    let r : get k (remove "entry_hash" e) ≡ get k e = get-remove k "entry_hash" e ∙ rw q refl in
    ap (is_text s) (sym r) ∙ sym (shows s _ _ c) ∙ ap (is_text s) l

-- The entry is that of the decision, read at its keys.
pub compare_gate_entry-texts :
    (h : Host) (l pkg path : String) (d e : Fields)
    → ShowsDecisions h
    → compare_gate_entry h l pkg path d e ≡ ok none
    → (s : String)
    → (is_text s (get "gate" e) ≡ is_text s (get "gate_id" d))
      × (is_text s (get "gate_result" e) ≡ is_text s (get "gate_result" d))
      × (is_text s (get "package_id" e) ≡ is_text s (get "package_id" d))
unfolding compare_gate_entry
compare_gate_entry-texts h l pkg path d e shows q s =
    let a = >>=-eq-ok _ _ q in
    let b = >>=-eq-ok _ _ a.2 in
    let c = same_text _ _ _ b.2 in
    let t = build_gate_ledger_entry-texts h d path pkg a.0 l _ b.0 b.1 in
    (
      at_key h "gate" s b.0 e _ _ shows.gate refl refl c t.0,
      at_key h "gate_result" s b.0 e _ _ shows.gate_result refl refl c t.1,
      at_key h "package_id" s b.0 e _ _ shows.package_id refl refl c t.2,
    )

pub is_text-eq : (s : String) (v : Value) → is_text s v ≡ true → text_or_empty v ≡ s
is_text-eq s (text t) p = sym ((eq_iff s t).0 p)
is_text-eq s v p = cc
