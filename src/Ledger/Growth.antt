-- ===== src/Ledger/Growth.antt =====
-- A sealed entry keeps the hash chain of a ledger sound.
use the_pass.Prelude.{
  String, true, false, not, List, [], ◌∷◌, ◌++◌, ◌≡◌, refl, sym, ap, ◌∙◌, is_nil, inl, inr,
  Bool-cases, append-eq-nil, str_eq, if◌then◌else◌,
}
use the_pass.Prelude.Result.{Result, ok, ◌>>=◌, raise_if, >>=-eq-ok, raise_if-eq-ok}
use the_pass.Json.{Value, text, Fields, get, insert}
use the_pass.Json.Laws.{get-insert, get-insert_self, remove-insert_self}
use the_pass.Ledger.Host.{Host}
use the_pass.Ledger.Issues.{LedgerError, Issue}
use the_pass.Ledger.Entries.{
  hash_entry, read_ledger_entries, verify_entries_from, verify_ledger_entries,
}
use the_pass.Ledger.Head.{head_hash, head_hash_from}
use the_pass.Ledger.Chain.{IsShaped, IsChain, nil, link, verify_ledger_entries-eq-nil_iff}
use the_pass.Ledger.Artifacts.{verify_ledger_artifacts}
use the_pass.Ledger.Semantics.{verify_ledger_file, verify_ledger_semantics}
use the_pass.Ledger.Append.{seal, require_valid}

-- The hash does not read the hash that is already there.
hash_entry-insert :
    (h : Host) (v : Value) (e : Fields) → hash_entry h (insert "entry_hash" v e) ≡ hash_entry h e
unfolding hash_entry
hash_entry-insert h v e = rw (remove-insert_self "entry_hash" v e, hash_entry)

-- The entry that is written carries its own hash and the one before it.
pub seal-links :
    (h : Host) (es : List Fields) (e : Fields)
    → (get "previous_hash" (seal h es e) ≡ head_hash es)
      × (get "entry_hash" (seal h es e) ≡ text (hash_entry h (seal h es e)))
unfolding seal
seal-links h es e =
    let linked = insert "previous_hash" (head_hash es) e in
    (
      simp get-insert,
      get-insert_self "entry_hash" (text (hash_entry h linked)) linked
          ∙ ap text (sym (hash_entry-insert h (text (hash_entry h linked)) linked)),
    )

IsChain-snoc :
    (h : Host) {v : Value} {es : List Fields} (e : Fields)
    → IsChain h v es
    → IsShaped e
    → get "previous_hash" e ≡ head_hash_from v es
    → get "entry_hash" e ≡ text (hash_entry h e)
    → IsChain h v (es ++ e ∷ [])
IsChain-snoc h e nil s p q = link s p q nil
IsChain-snoc h e (link {e = d} t a b c) s p q = link t a b (IsChain-snoc h e c s (rw b at p) q)

-- The keys that `seal` leaves alone read as before.
pub seal-other :
    (h : Host) (es : List Fields) (e : Fields) (k : String)
    → str_eq k "entry_hash" ≡ false
    → str_eq k "previous_hash" ≡ false
    → get k (seal h es e) ≡ get k e
unfolding seal
seal-other h es e k p q = simp (get-insert, p, q)

pub append_sealed-verified :
    (h : Host) (es : List Fields) (e : Fields)
    → verify_ledger_entries h es ≡ []
    → IsShaped (seal h es e)
    → verify_ledger_entries h (es ++ seal h es e ∷ []) ≡ []
append_sealed-verified h es e v s =
    (verify_ledger_entries-eq-nil_iff h (es ++ seal h es e ∷ [])).1 (
      IsChain-snoc h (seal h es e) ((verify_ledger_entries-eq-nil_iff h es).0 v) s
        (seal-links h es e).0 (seal-links h es e).1)

is_nil-eq : (xs : List Issue) → not (is_nil xs) ≡ false → xs ≡ []
is_nil-eq [] h = refl
is_nil-eq (x ∷ xs) h = cc

structural-eq-nil :
    (xs : List Issue) (rest : Result LedgerError (List Issue))
    → (if not (is_nil xs) then ok xs else rest) ≡ ok []
    → xs ≡ []
structural-eq-nil [] rest h = refl
structural-eq-nil (x ∷ xs) rest h = cc

verify_ledger_file-chain :
    (h : Host) (ledger : String) (es : List Fields)
    → h.exists ledger ≡ true
    → read_ledger_entries h ledger ≡ ok es
    → verify_ledger_file h ledger ≡ ok []
    → verify_ledger_entries h es ≡ []
unfolding verify_ledger_file verify_ledger_entries ◌>>=◌
verify_ledger_file-chain h ledger es x r v =
    (append-eq-nil (verify_ledger_entries h es) (verify_ledger_artifacts h ledger es) (
      structural-eq-nil (verify_ledger_entries h es ++ verify_ledger_artifacts h ledger es)
        (verify_ledger_semantics h ledger es) (rw (x, r, verify_ledger_file) at v))).0

missing-chain :
    (h : Host) (ledger : String) (es : List Fields)
    → h.exists ledger ≡ false
    → read_ledger_entries h ledger ≡ ok es
    → verify_ledger_entries h es ≡ []
unfolding read_ledger_entries verify_ledger_entries verify_entries_from
missing-chain h ledger es x r =
    let e : ok [] ≡ ok es = rw (x, read_ledger_entries) at r in let e' : [] ≡ es = cc e in rw (← e')

raise_if_issues-eq-ok :
    (xs : List Issue) (e : LedgerError) → raise_if (not (is_nil xs)) e ≡ ok tt → xs ≡ []
raise_if_issues-eq-ok xs e h = is_nil-eq xs (raise_if-eq-ok _ e h)

-- A ledger that passes the guard of the transactions is a sound chain; a missing one is empty.
pub require_valid-chain :
    (h : Host) (ledger : String) (es : List Fields)
    → read_ledger_entries h ledger ≡ ok es
    → require_valid h ledger ≡ ok tt
    → verify_ledger_entries h es ≡ []
unfolding require_valid
require_valid-chain h ledger es r v = elim (Bool-cases (h.exists ledger)) [
  | inl x ↦
      let p = >>=-eq-ok (verify_ledger_file h ledger) _ (rw (x, require_valid) at v) in
      verify_ledger_file-chain h ledger es x r (rw (raise_if_issues-eq-ok p.0 _ p.2) at p.1)
  | inr x ↦ missing-chain h ledger es x r
]
