-- ===== src/Ledger/Judged.antt =====
-- An entry of a replayed ledger, and the entries before it.
use the_pass.Prelude.{
  String, Bool, true, false, ◌||◌, none, List, [], ◌∷◌, ◌++◌, ◌≡◌, arith, any_of, any_of-append,
}
use the_pass.Prelude.Result.{ok}
use the_pass.Json.{Fields}
use the_pass.Ledger.Host.{Host}
use the_pass.Ledger.Entries.{is_v2}
use the_pass.Ledger.Semantics.{judge}
use the_pass.Ledger.Replay.{IsJudged, skip, accept}

old_or : (a b c : Bool) → a || c ≡ true → a || (b || c) ≡ true
old_or a b c q = ground arith

new_or : (a b c d : Bool) → d ≡ a || (b || false) → d || c ≡ true → a || (b || c) ≡ true
new_or a b c d q w = ground arith

or_nothing : (a : Bool) → a ≡ true → a || false ≡ true
or_nothing a q = ground arith

-- What the judgement of an entry requires of the entries trusted before it stands before it.
pub IsJudged-earlier :
    (h : Host) (l : String) (q : Fields → Bool) (e : Fields) (after : List Fields)
    → is_v2 e ≡ true
    → ((trusted : List Fields) → judge h l trusted e ≡ ok none → any_of q trusted ≡ true)
    → (trusted before : List Fields) → IsJudged h l trusted (before ++ e ∷ after)
    → any_of q trusted || any_of q before ≡ true
IsJudged-earlier h l q e after v f trusted [] (skip n r) = cc
IsJudged-earlier h l q e after v f trusted [] (accept n j r) = or_nothing _ (f trusted j)
IsJudged-earlier h l q e after v f trusted (x ∷ xs) (skip n r) =
    old_or (any_of q trusted) (q x) _ (IsJudged-earlier h l q e after v f trusted xs r)
IsJudged-earlier h l q e after v f trusted (x ∷ xs) (accept n j r) =
    new_or (any_of q trusted) (q x) _ _ (any_of-append q trusted (x ∷ []))
      (IsJudged-earlier h l q e after v f (trusted ++ x ∷ []) xs r)

-- The entry was judged.
pub IsJudged-at :
    (h : Host) (l : String) (e : Fields) (after : List Fields)
    → is_v2 e ≡ true
    → (trusted before : List Fields) → IsJudged h l trusted (before ++ e ∷ after)
    → (t : List Fields) × (judge h l t e ≡ ok none)
IsJudged-at h l e after v trusted [] (skip n r) = cc
IsJudged-at h l e after v trusted [] (accept n j r) = (trusted, j)
IsJudged-at h l e after v trusted (x ∷ xs) (skip n r) = IsJudged-at h l e after v trusted xs r
IsJudged-at h l e after v trusted (x ∷ xs) (accept n j r) =
    IsJudged-at h l e after v (trusted ++ x ∷ []) xs r
