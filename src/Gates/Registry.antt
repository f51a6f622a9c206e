-- ===== src/Gates/Registry.antt =====
-- attestation.py: `verify_trusted_reviewer_registry`.
use the_pass.Prelude.{
  String, Bool, true, false, not, ◌&&◌, Option, none, some, List, [], ◌∷◌, select, is_nil,
  if◌then◌else◌,
}
use the_pass.Prelude.Result.{Result, ok, ◌>>=◌}
use the_pass.Json.{
  Value, null, boolean, text, object, Fields, get, dict, is_text, list_of, as_object, object_at,
  value_eq,
}
use the_pass.Ledger.Issues.{LedgerError}
use the_pass.Ledger.Package.{load}
use the_pass.Gates.GateWorld.{GateWorld}

-- What a decision says of the reviewer's key.
abbrev pub trust_of : Value → Value → Value → Bool → Fields
trust_of registry_id fingerprint key_id trusted = dict (
    ("registry_id", registry_id)
    ∷ ("registry_fingerprint", fingerprint)
    ∷ ("key_id", key_id)
    ∷ ("trusted", boolean trusted)
    ∷ [])

abbrev pub untrusted : Fields
untrusted = trust_of null null null false

-- The valid registries among the files, and whether all files are valid.
unfoldable pub read_registries : GateWorld → List String → Result LedgerError (List Fields × Bool)
read_registries w [] = ok ([], true)
read_registries w (f ∷ fs) =
    if not (is_nil (w.issues f "reviewer_key_registry"))
    then (read_registries w fs >>= λ r. ok (r.0, false))
    else (load w.host f >>= λ v. read_registries w fs >>= λ r.
        ok (elim (as_object v) [ none ↦ r | some d ↦ (d ∷ r.0, r.1) ]))

abbrev pub is_fingerprinted : GateWorld → Fields → Fields → Bool
is_fingerprinted w signer registry =
    value_eq (get "id" registry) (get "registry_id" signer)
    && is_text (w.stable_fingerprint (object registry)) (get "registry_fingerprint" signer)

-- A row of the registry for the key and the identity of the attestation.
abbrev pub is_authorized : Fields → Value → Bool
is_authorized d (object row) =
    value_eq (get "key_id" row) (get "key_id" (object_at "signer" d))
    && value_eq (get "public_key" row) (get "public_key" (object_at "signer" d))
    && value_eq (get "reviewer" row) (get "reviewer" d)
    && value_eq (get "principal_type" row) (get "type" (object_at "principal" d))
    && value_eq (get "provider" row) (get "provider" (object_at "principal" d))
is_authorized d _ = false

abbrev pub is_single {ℓ} : {A : Type ℓ} → List A → Bool
is_single (a ∷ []) = true
is_single _ = false

-- The two later tests of the id and the fingerprint repeat what the selection has tested.
unfoldable pub authorize : GateWorld → Fields → List Fields → Fields × List String
authorize w d registries =
    let signer = object_at "signer" d in
    elim (select (is_fingerprinted w signer) registries) [
      | [] ↦ (
        untrusted,
        "external trusted reviewer registry does not authorize the signer fingerprint" ∷ [],
      )
      | registry ∷ more ↦
          if not (is_nil more)
          then (
            untrusted,
            "external trusted reviewer registry does not authorize the signer fingerprint" ∷ [],
          )
          else let trust =
              trust_of (get "id" registry) (text (w.stable_fingerprint (object registry)))
                (get "key_id" signer) in
            if is_single (select (is_authorized d) (list_of (get "keys" registry)))
            then (trust true, [])
            else (
              trust false,
              "trusted reviewer registry has no unique authorized signer entry" ∷ [],
            )
    ]

-- The texts of the invalid documents are left to one text.
unfoldable pub verify_trusted_reviewer_registry :
    GateWorld → String → Option Fields → Result LedgerError (Fields × List String)
unfolding read_registries
verify_trusted_reviewer_registry w pkg attestation = elim w.trusted_registry [
  | none ↦ ok (untrusted, "gate pass requires an external trusted reviewer registry" ∷ [])
  | some configured ↦ elim (w.resolve_strict configured) [
    | none ↦ ok (untrusted, "external trusted reviewer registry does not exist" ∷ [])
    | some path ↦ elim (w.host.relative_to pkg path) [
      | some inside ↦
          ok (untrusted, "trusted reviewer registry must be outside the evaluated package" ∷ [])
      | none ↦ elim attestation [
        | none ↦ ok (untrusted, "trusted reviewer registry or attestation is invalid" ∷ [])
        | some d ↦ elim (as_object (get "signer" d)) [
          | none ↦ ok (untrusted, "reviewer attestation signer is invalid" ∷ [])
          | some signer ↦ read_registries w (w.registry_files path) >>= λ r. ok (
              if r.1
              then authorize w d r.0
              else (untrusted, "trusted reviewer registry contains invalid documents" ∷ []))
        ]
      ]
    ]
  ]
]
