-- ===== src/Gates/Trusted.antt =====
-- attestation.py: what the trusted registries show when they authorize a signer.
use the_pass.Prelude.{
  String, Bool, true, false, none, some, List, [], ◌∷◌, ◌≡◌, inl, inr, refl, ap, select,
  if◌then◌else◌, Bool-cases, Option-cases,
}
use the_pass.Prelude.Result.{Result, ok, >>=-eq-ok}
use the_pass.Json.{Value, Fields, get, list_of, object_at, as_object}
use the_pass.Ledger.Issues.{LedgerError}
use the_pass.Gates.GateWorld.{GateWorld}
use the_pass.Gates.Registry.{
  untrusted, read_registries, is_fingerprinted, is_authorized, is_single, authorize,
  verify_trusted_reviewer_registry,
}

-- The registries, all valid, lie outside the package; one alone has the id and the fingerprint that
-- the signer names, and in it one row alone is that of the signer's key and identity.
pub record IsTrusted (w : GateWorld) (pkg : String) (d : Fields) : Type 0 where
  pub configured : String
  pub path : String
  pub registries : List Fields
  pub registry : Fields
  pub row : Value
  pub configures : w.trusted_registry ≡ some configured
  pub resolves : w.resolve_strict configured ≡ some path
  pub outside : w.host.relative_to pkg path ≡ none
  pub reads : read_registries w (w.registry_files path) ≡ ok (registries, true)
  pub only : select (is_fingerprinted w (object_at "signer" d)) registries ≡ registry ∷ []
  pub authorizes : select (is_authorized d) (list_of (get "keys" registry)) ≡ row ∷ []

single-row : (rows : List Value) → is_single rows ≡ true → (row : Value) × (rows ≡ row ∷ [])
single-row [] h = cc
single-row (v ∷ []) h = (v, refl)
single-row (v ∷ (x ∷ xs)) h = cc

authorize-only :
    (w : GateWorld) (d : Fields) (registries : List Fields) (trust : Fields)
    → authorize w d registries ≡ (trust, [])
    → (registry : Fields) × (row : Value) × (select
          (is_fingerprinted w (object_at "signer" d))
          registries
        ≡ registry ∷ [])
      × (select (is_authorized d) (list_of (get "keys" registry)) ≡ row ∷ [])
unfolding authorize
authorize-only w d registries trust h =
    go (select (is_fingerprinted w (object_at "signer" d)) registries) refl
  where
    go :
        (rs : List Fields)
        → select (is_fingerprinted w (object_at "signer" d)) registries ≡ rs
        → (registry : Fields) × (row : Value) × (select
              (is_fingerprinted w (object_at "signer" d))
              registries
            ≡ registry ∷ [])
          × (select (is_authorized d) (list_of (get "keys" registry)) ≡ row ∷ [])
    go [] e = let q = ap (λ x. x.1) (rw (e, authorize) at h) in cc
    go (registry ∷ []) e =
        elim (Bool-cases (is_single (select (is_authorized d) (list_of (get "keys" registry))))) [
          | inl s ↦ let r = single-row _ s in (registry, r.0, e, r.1)
          | inr s ↦ let q = ap (λ x. x.1) (rw (e, s, authorize) at h) in cc
        ]
    go (registry ∷ (x ∷ xs)) e = let q = ap (λ x. x.1) (rw (e, authorize) at h) in cc

ok-pair : {A : Type 0} (x y : A) → ◌≡◌ {A = Result LedgerError A} (ok x) (ok y) → x ≡ y
ok-pair x y q = cc

refuses :
    (x y : Fields) (t : String)
    → ◌≡◌ {A = Result LedgerError (Fields × List String)} (ok (x, t ∷ [])) (ok (y, []))
    → ⊥
refuses x y t q = let e = ap (λ x. x.1) (ok-pair _ _ q) in cc

-- The registries of the path, of the signer that the attestation names.
authorized_registries :
    (w : GateWorld) (pkg : String) (d trust : Fields) (configured path : String)
    → w.trusted_registry ≡ some configured
    → w.resolve_strict configured ≡ some path
    → w.host.relative_to pkg path ≡ none
    → (r : List Fields × Bool) → read_registries w (w.registry_files path) ≡ ok r
    → (if r.1
        then authorize w d r.0
        else (untrusted, "trusted reviewer registry contains invalid documents" ∷ []))
      ≡ (trust, [])
    → IsTrusted w pkg d
authorized_registries w pkg d trust configured path c p o (rs, true) e h =
    let a = authorize-only w d rs trust h in
    record {
      configured = configured;
      path = path;
      registries = rs;
      registry = a.0;
      row = a.1;
      configures = c;
      resolves = p;
      outside = o;
      reads = e;
      only = a.2;
      authorizes = a.3;
    }
authorized_registries w pkg d trust configured path c p o (rs, false) e h =
    let q = ap (λ x. x.1) h in cc

pub verify_trusted_reviewer_registry-IsTrusted :
    (w : GateWorld) (pkg : String) (d trust : Fields)
    → verify_trusted_reviewer_registry w pkg (some d) ≡ ok (trust, [])
    → IsTrusted w pkg d
unfolding verify_trusted_reviewer_registry
verify_trusted_reviewer_registry-IsTrusted w pkg d trust h =
    elim (Option-cases w.trusted_registry) [
      | inl n ↦ absurd (refuses _ _ _ (rw (n, verify_trusted_reviewer_registry) at h))
      | inr c ↦ elim (Option-cases (w.resolve_strict c.0)) [
        | inl n ↦ absurd (refuses _ _ _ (rw (c.1, n, verify_trusted_reviewer_registry) at h))
        | inr p ↦ elim (Option-cases (w.host.relative_to pkg p.0)) [
          | inr i ↦
              absurd (refuses _ _ _ (rw (c.1, p.1, i.1, verify_trusted_reviewer_registry) at h))
          | inl o ↦ elim (Option-cases (as_object (get "signer" d))) [
            | inl n ↦
                absurd (refuses _ _ _ (rw (c.1, p.1, o, n, verify_trusted_reviewer_registry) at h))
            | inr s ↦
                let a =
                  >>=-eq-ok _ _ (rw (c.1, p.1, o, s.1, verify_trusted_reviewer_registry) at h) in
                authorized_registries w pkg d trust c.0 p.0 c.1 p.1 o a.0 a.1 (ok-pair _ _ a.2)
          ]
        ]
      ]
    ]

-- An attestation is needed.
pub needs_attestation :
    (w : GateWorld) (pkg : String) (trust : Fields)
    → verify_trusted_reviewer_registry w pkg none ≡ ok (trust, [])
    → ⊥
unfolding verify_trusted_reviewer_registry
needs_attestation w pkg trust h = elim (Option-cases w.trusted_registry) [
  | inl n ↦ refuses _ _ _ (rw (n, verify_trusted_reviewer_registry) at h)
  | inr c ↦ elim (Option-cases (w.resolve_strict c.0)) [
    | inl n ↦ refuses _ _ _ (rw (c.1, n, verify_trusted_reviewer_registry) at h)
    | inr p ↦ elim (Option-cases (w.host.relative_to pkg p.0)) [
      | inr i ↦ refuses _ _ _ (rw (c.1, p.1, i.1, verify_trusted_reviewer_registry) at h)
      | inl o ↦ refuses _ _ _ (rw (c.1, p.1, o, verify_trusted_reviewer_registry) at h)
    ]
  ]
]
