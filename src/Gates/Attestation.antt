-- ===== src/Gates/Attestation.antt =====
-- attestation.py: the files of a review and `verify_reviewer_attestation`. The legacy key is that
-- of the gates' calls, which is `None`.
use Prim.Native.String.{◌++◌ as text_append, slice, count}
use the_pass.Prelude.{
  ℕ, String, Bool, false, not, ◌&&◌, ◌||◌, Option, none, some, List, [], ◌∷◌, ◌++◌, leb, ◌==◌,
  str_eq, mem_text, select, is_nil, if◌then◌else◌,
}
use the_pass.Prelude.Result.{Result, ok, raise, ◌>>=◌}
use the_pass.Json.{
  Value, object, Fields, get, remove, is_text, is_null, text_or_empty, list_of, as_object,
  object_at, value_eq, equals_int,
}
use the_pass.Ledger.Issues.{LedgerError}
use the_pass.Ledger.Package.{load}
use the_pass.Gates.GateWorld.{
  GateWorld, unparsed, naive, at, report_if, joined, names_of, typed_issues,
}

abbrev pub attestable_gates : List String
attestable_gates = "research_gate" ∷ "paper_gate" ∷ "risk_review" ∷ []

abbrev pub attestation_path : GateWorld → String → String → String
attestation_path w pkg gate = w.host.within pkg (joined "reviewer_attestation." gate ".json")

abbrev pub registry_snapshot_path : GateWorld → String → String → String
registry_snapshot_path w pkg gate = w.host.within pkg (joined "reviewer_key_registry." gate ".json")

-- An `AttestationError` is its text.
unfoldable pub review_task_path : GateWorld → String → String → Result String String
review_task_path w pkg gate =
    if not (mem_text gate attestable_gates)
    then raise "only non-live promotion gates have review task evidence"
    else let stem =
        if str_eq gate "research_gate" then "findings" else text_append "audit_report." gate in
      elim (names_of w pkg stem) [
        | [] ↦ raise (text_append "review task evidence is missing or ambiguous: " stem)
        | name ∷ more ↦
            if is_nil more
            then ok (w.host.within pkg name)
            else raise (text_append "review task evidence is missing or ambiguous: " stem)
      ]

abbrev pub parse_time : GateWorld → String → Result String ℕ
parse_time w s = elim (w.instant s) [
  | unparsed ↦ raise "attestation time must be RFC3339"
  | naive ↦ raise "attestation time must include a timezone"
  | at n ↦ ok n
]

-- `_canonical`: the document without its signature.
abbrev pub unsigned : GateWorld → Fields → String
unsigned w d = w.ascii_json (object (remove "signature" d))

abbrev pub decode_base64 : GateWorld → String → String → ℕ → Result String String
decode_base64 w value label length = elim (w.base64_decode value) [
  | none ↦ raise (text_append label " must be canonical base64")
  | some raw ↦
      if not (count raw == length) || not (str_eq (w.base64_encode raw) value)
      then raise
          (joined label " must encode exactly " (if length == 32 then "32 bytes" else "64 bytes"))
      else ok raw
]

abbrev pub key_id : GateWorld → String → String
key_id w public_key = text_append "key_" (slice (w.host.sha256_text public_key) 0 16)

-- The rest of the checks, or the text of the exception that ends them.
abbrev pub checked {ℓ} : {A : Type ℓ} → Result String A → (A → List String) → List String
checked (ok a) f = f a
checked (raise t) f = t ∷ []

-- The signature over the document.
unfoldable pub check_signature : GateWorld → Fields → String → List String
check_signature w d public_key =
    checked (decode_base64 w (text_or_empty (get "signature" d)) "review signature" 64) λ signature.
      report_if (not (w.verify_signature public_key signature (unsigned w d)))
        "reviewer attestation signature does not verify"

-- The key was not revoked at the moment of signing.
unfoldable pub check_revoked : GateWorld → Fields → Fields → ℕ → String → List String
unfolding check_signature
check_revoked w d entry moment public_key =
    if is_null (get "revoked_at" entry)
    then check_signature w d public_key
    else checked (parse_time w (text_or_empty (get "revoked_at" entry))) λ revoked.
      report_if (leb revoked moment) "reviewer attestation key was revoked at signing time"
      ++ check_signature w d public_key

-- `valid_from <= moment <= valid_until`, which reads the second only if the first holds.
unfoldable pub check_validity : GateWorld → Fields → Fields → ℕ → String → List String
unfolding check_revoked
check_validity w d entry moment public_key =
    checked (parse_time w (text_or_empty (get "valid_from" entry))) λ start.
      if not (leb start moment)
      then "reviewer attestation key is outside its validity interval"
        ∷ check_revoked w d entry moment public_key
      else checked (parse_time w (text_or_empty (get "valid_until" entry))) λ end.
        report_if (not (leb moment end)) "reviewer attestation key is outside its validity interval"
        ++ check_revoked w d entry moment public_key

-- The checks of the key and of the signature, up to the first exception.
unfoldable pub check_key : GateWorld → Fields → Fields → List String
unfolding check_validity
check_key w d entry =
    let signer = object_at "signer" d in
    checked (decode_base64 w (text_or_empty (get "public_key" signer)) "review public key" 32)
      λ public_key.
        report_if (not (is_text (key_id w public_key) (get "key_id" signer)))
          "reviewer attestation key ID does not match public key"
        ++ checked (parse_time w (text_or_empty (get "created_at" d)))
            λ moment. check_validity w d entry moment public_key

-- The entry of the registry has to name the reviewer and the key of the attestation.
unfoldable pub check_binding : Fields → Fields → String → List String
check_binding d entry reviewer =
    let principal = object_at "principal" d in
    let signer = object_at "signer" d in
    report_if (not (is_text reviewer (get "reviewer" entry)))
      "reviewer registry reviewer does not match attestation"
    ++ (report_if (not (value_eq (get "principal_type" entry) (get "type" principal)))
          "reviewer registry principal_type does not match attestation"
        ++ (report_if (not (value_eq (get "provider" entry) (get "provider" principal)))
              "reviewer registry provider does not match attestation"
            ++ report_if (not (value_eq (get "public_key" entry) (get "public_key" signer)))
                "reviewer registry public_key does not match attestation"))

abbrev pub has_key_id : Value → Value → Bool
has_key_id id (object row) = value_eq (get "key_id" row) id
has_key_id id _ = false

-- The registry of the package, read as an object.
unfoldable pub check_registry : GateWorld → Fields → Fields → String → List String
check_registry w d registry reviewer =
    let signer = object_at "signer" d in
    report_if (not (value_eq (get "registry_id" signer) (get "id" registry)))
      "reviewer attestation registry ID does not match"
    ++ (report_if
          (not
            (is_text (w.stable_fingerprint (object registry)) (get "registry_fingerprint" signer)))
          "reviewer attestation registry fingerprint does not match"
        ++ elim (select (has_key_id (get "key_id" signer)) (list_of (get "keys" registry))) [
          | [] ↦ "reviewer attestation signer key is not unique in the registry" ∷ []
          | row ∷ more ↦ elim (as_object row) [
            | none ↦ "reviewer attestation signer key is not unique in the registry" ∷ []
            | some entry ↦
                if is_nil more
                then check_binding d entry reviewer ++ check_key w d entry
                else "reviewer attestation signer key is not unique in the registry" ∷ []
          ]
        ])

-- The identities of the attestation itself.
unfoldable pub check_identity : Fields → String → String → String → List String
check_identity d gate package_id reviewer =
    let principal = object_at "principal" d in
    let separation = object_at "separation" d in
    report_if (not (is_text gate (get "gate_id" d))) "reviewer attestation gate does not match"
    ++ (report_if (not (is_text package_id (get "package_id" d)))
          "reviewer attestation package_id does not match"
        ++ (report_if (not (is_text reviewer (get "reviewer" d)))
              "reviewer attestation reviewer does not match"
            ++ report_if
                (is_text "provider" (get "type" principal)
                  && value_eq (get "author_provider" separation)
                      (get "reviewer_provider" separation))
                "automated reviewer provider is not independent"))

-- The part after the identities: an attestation of the first schema never authorizes.
unfoldable pub check_signer :
    GateWorld → String → Fields → String → String → Result LedgerError (List String)
unfolding check_registry
check_signer w pkg d gate reviewer =
    if equals_int 1 (get "schema_version" d)
    then ok ("legacy HMAC reviewer attestation cannot authorize a new gate pass" ∷ [])
    else let path = registry_snapshot_path w pkg gate in
      if not (is_nil (w.issues path "reviewer_key_registry"))
      then ok (typed_issues w path "reviewer_key_registry")
      else (load w.host path >>= λ v. ok (elim (as_object v) [
        | none ↦ "reviewer key registry must be an object" ∷ []
        | some registry ↦ check_registry w d registry reviewer
      ]))

-- The document, where there is one, and the blockers. `pkg` is the directory of the attestation.
unfoldable pub verify_reviewer_attestation :
    GateWorld → String → String → String → String → Result LedgerError (Option Fields × List String)
unfolding check_signer
verify_reviewer_attestation w pkg gate package_id reviewer =
    let path = attestation_path w pkg gate in
    if not (is_nil (w.issues path "reviewer_attestation"))
    then ok (none, typed_issues w path "reviewer_attestation")
    else (load w.host path >>= λ v. elim (as_object v) [
      | none ↦ ok (none, "reviewer attestation must be an object" ∷ [])
      | some d ↦ check_signer w pkg d gate reviewer >>= λ blockers.
          ok (some d, check_identity d gate package_id reviewer ++ blockers)
    ])
