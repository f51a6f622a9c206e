-- ===== src/Gates/Signed.antt =====
-- attestation.py: what an attestation without blockers shows of its signature.
use the_pass.Prelude.{
  ℕ, String, true, false, List, [], ◌≡◌, inl, inr, refl, leb, append-eq-nil, Bool-cases,
}
use the_pass.Prelude.Result.{Result, ok, raise}
use the_pass.Json.{Fields, get, is_null, is_text, text_or_empty, object_at}
use the_pass.Gates.GateWorld.{GateWorld}
use the_pass.Gates.Attestation.{
  parse_time, unsigned, decode_base64, key_id, checked, check_signature, check_revoked,
  check_validity, check_key,
}
use the_pass.Gates.Requirements.{report_if-eq-nil, report_if-not-eq-nil}

-- The key was not revoked, or after the moment.
pub data IsUnrevoked (w : GateWorld) (entry : Fields) (moment : ℕ) : Type 0 where
  never : is_null (get "revoked_at" entry) ≡ true → IsUnrevoked w entry moment
  later :
      {revoked : ℕ}
      → parse_time w (text_or_empty (get "revoked_at" entry)) ≡ ok revoked
      → leb revoked moment ≡ false
      → IsUnrevoked w entry moment

-- The signature of the document verifies under the key of the signer, at a moment of the key's
-- validity at which it was not revoked.
pub record IsSigned (w : GateWorld) (d : Fields) (entry : Fields) : Type 0 where
  pub public_key : String
  pub signature : String
  pub moment : ℕ
  pub start : ℕ
  pub end : ℕ
  pub key :
      decode_base64 w
        (text_or_empty (get "public_key" (object_at "signer" d)))
        "review public key"
        32
      ≡ ok public_key
  pub named : is_text (key_id w public_key) (get "key_id" (object_at "signer" d)) ≡ true
  pub dated : parse_time w (text_or_empty (get "created_at" d)) ≡ ok moment
  pub valid_from : parse_time w (text_or_empty (get "valid_from" entry)) ≡ ok start
  pub valid_until : parse_time w (text_or_empty (get "valid_until" entry)) ≡ ok end
  pub started : leb start moment ≡ true
  pub lasting : leb moment end ≡ true
  pub unrevoked : IsUnrevoked w entry moment
  pub sealed :
      decode_base64 w (text_or_empty (get "signature" d)) "review signature" 64 ≡ ok signature
  pub verifies : w.verify_signature public_key signature (unsigned w d) ≡ true

checked-eq-nil {ℓ} :
    {A : Type ℓ} (m : Result String A) (f : A → List String)
    → checked m f ≡ []
    → (a : A) × (m ≡ ok a) × (f a ≡ [])
checked-eq-nil (ok a) f h = (a, refl, h)
checked-eq-nil (raise t) f h = cc

check_signature-verifies :
    (w : GateWorld) (d : Fields) (public_key : String)
    → check_signature w d public_key ≡ []
    → (s : String) × (decode_base64 w (text_or_empty (get "signature" d)) "review signature" 64
        ≡ ok s)
      × (w.verify_signature public_key s (unsigned w d) ≡ true)
unfolding check_signature
check_signature-verifies w d public_key h =
    let a = checked-eq-nil _ _ h in (a.0, a.1, report_if-not-eq-nil _ _ a.2)

check_revoked-parts :
    (w : GateWorld) (d entry : Fields) (moment : ℕ) (public_key : String)
    → check_revoked w d entry moment public_key ≡ []
    → IsUnrevoked w entry moment × (check_signature w d public_key ≡ [])
unfolding check_revoked
check_revoked-parts w d entry moment public_key h =
    elim (Bool-cases (is_null (get "revoked_at" entry))) [
      | inl n ↦ (never n, rw (n, check_revoked) at h)
      | inr n ↦
          let a =
            checked-eq-nil (parse_time w (text_or_empty (get "revoked_at" entry))) _
              (rw (n, check_revoked) at h) in
          let p = append-eq-nil _ _ a.2 in (later a.1 (report_if-eq-nil _ _ p.0), p.1)
    ]

-- The moment lies in the validity of the key.
record IsTimely (w : GateWorld) (d entry : Fields) (moment : ℕ) (public_key : String) : Type 0 where
  start : ℕ
  end : ℕ
  valid_from : parse_time w (text_or_empty (get "valid_from" entry)) ≡ ok start
  valid_until : parse_time w (text_or_empty (get "valid_until" entry)) ≡ ok end
  started : leb start moment ≡ true
  lasting : leb moment end ≡ true
  rest : check_revoked w d entry moment public_key ≡ []

check_validity-IsTimely :
    (w : GateWorld) (d entry : Fields) (moment : ℕ) (public_key : String)
    → check_validity w d entry moment public_key ≡ []
    → IsTimely w d entry moment public_key
unfolding check_validity
check_validity-IsTimely w d entry moment public_key h =
    let a = checked-eq-nil _ _ h in
    elim (Bool-cases (leb a.0 moment)) [
      | inr n ↦ let q = rw n at a.2 in cc
      | inl l ↦
          let b =
            checked-eq-nil (parse_time w (text_or_empty (get "valid_until" entry))) _
              (rw l at a.2) in
          let p = append-eq-nil _ _ b.2 in
          record {
            start = a.0;
            end = b.0;
            valid_from = a.1;
            valid_until = b.1;
            started = l;
            lasting = report_if-not-eq-nil _ _ p.0;
            rest = p.1;
          }
    ]

pub check_key-IsSigned :
    (w : GateWorld) (d entry : Fields) → check_key w d entry ≡ [] → IsSigned w d entry
unfolding check_key
check_key-IsSigned w d entry h =
    let a = checked-eq-nil _ _ h in
    let p = append-eq-nil _ _ a.2 in
    let b = checked-eq-nil _ _ p.1 in validity a.0 a.1 (report_if-not-eq-nil _ _ p.0) b.0 b.1 b.2
  where
    validity :
        (public_key : String)
        → decode_base64 w
            (text_or_empty (get "public_key" (object_at "signer" d)))
            "review public key"
            32
          ≡ ok public_key
        → is_text (key_id w public_key) (get "key_id" (object_at "signer" d)) ≡ true
        → (moment : ℕ) → parse_time w (text_or_empty (get "created_at" d)) ≡ ok moment
        → check_validity w d entry moment public_key ≡ []
        → IsSigned w d entry
    validity public_key key named moment dated q =
        let t = check_validity-IsTimely w d entry moment public_key q in
        let u = check_revoked-parts w d entry moment public_key t.rest in
        let s = check_signature-verifies w d public_key u.1 in
        record {
          public_key = public_key;
          signature = s.0;
          moment = moment;
          start = t.start;
          end = t.end;
          key = key;
          named = named;
          dated = dated;
          valid_from = t.valid_from;
          valid_until = t.valid_until;
          started = t.started;
          lasting = t.lasting;
          unrevoked = u.0;
          sealed = s.1;
          verifies = s.2;
        }
