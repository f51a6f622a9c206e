-- ===== src/Gates/Documents.antt =====
-- The documents of a sample package, with its reviews and its paper run.
use the_pass.Prelude.{String, List, [], ◌∷◌}
use the_pass.Json.{Value, text, integer, pos, array, object, Fields, nil, dict, items}

abbrev pub package_id : String
package_id = "pkg_0123456789abcdef01234567"

abbrev pub public_key : String
public_key = "abcdefghijklmnopabcdefghijklmnop"

abbrev pub signature : String
signature = "abcdefghijklmnopabcdefghijklmnopabcdefghijklmnopabcdefghijklmnop"

abbrev registry : Fields
registry = dict (
    ("id", text "registry")
    ∷ (
      "keys",
      array (
          items (
            object (
              dict (
                ("key_id", text "key_0123456789abcdef")
                ∷ ("public_key", text public_key)
                ∷ ("reviewer", text "rita")
                ∷ ("principal_type", text "human")
                ∷ ("provider", text "none")
                ∷ ("valid_from", text "first")
                ∷ ("valid_until", text "last")
                ∷ []))
            ∷ [])),
    )
    ∷ [])

abbrev attestation : String → String → Fields
attestation gate task = dict (
    ("schema_version", integer (pos 2))
    ∷ ("gate_id", text gate)
    ∷ ("package_id", text package_id)
    ∷ ("reviewer", text "rita")
    ∷ ("principal", object (dict (("type", text "human") ∷ ("provider", text "none") ∷ [])))
    ∷ (
      "signer",
      object (
          dict (
            ("key_id", text "key_0123456789abcdef")
            ∷ ("public_key", text public_key)
            ∷ ("registry_id", text "registry")
            ∷ ("registry_fingerprint", text "fingerprint")
            ∷ [])),
    )
    ∷ ("signature", text signature)
    ∷ ("created_at", text "then")
    ∷ ("evidence", object (dict (("task_sha256", text task) ∷ [])))
    ∷ [])

abbrev fingerprint : String → Value
fingerprint name = object (dict (("path", text name) ∷ ("sha256", text name) ∷ []))

abbrev audit : String → List Value → Fields
audit gate fingerprints = dict (
    ("target", text gate)
    ∷ ("reviewer", text "rita")
    ∷ ("package_id", text package_id)
    ∷ ("verdict", text "pass")
    ∷ ("findings", array (items []))
    ∷ ("evidence_fingerprints", array (items fingerprints))
    ∷ [])

abbrev pub plan : Fields
plan = dict (
    ("status", text "paper_ready")
    ∷ (
      "observation",
      object (dict (("minimum_days", integer (pos 2)) ∷ ("minimum_signals", integer (pos 5)) ∷ [])),
    )
    ∷ [])

abbrev pub divergence : Fields
divergence = dict (
    ("decision", object (dict (("status", text "risk_review_candidate") ∷ [])))
    ∷ ("breaches", array (items []))
    ∷ (
      "sample",
      object (
          dict (
            ("start_time", text "start")
            ∷ ("end_time", text "end")
            ∷ ("signals", integer (pos 6))
            ∷ [])),
    )
    ∷ [])

-- The documents of the package and the trusted registry, by name.
abbrev pub documents : List (String × Fields)
documents =
    ("strategy_spec.json", dict (("id", text "strategy") ∷ ("owner", text "alice") ∷ []))
    ∷ ("data_manifest.json", nil)
    ∷ ("run_receipt.json", dict (("id", text "run") ∷ ("owner", text "alice") ∷ []))
    ∷ ("metrics_report.json", nil)
    ∷ ("cost_waterfall.json", nil)
    ∷ ("verdict_report.json", dict (("verdict", text "paper_candidate") ∷ []))
    ∷ ("findings.json", dict (("reviewer", text "rita") ∷ []))
    ∷ ("reviewer_attestation.research_gate.json", attestation "research_gate" "findings.json")
    ∷ (
      "reviewer_attestation.paper_gate.json",
      attestation "paper_gate" "audit_report.paper_gate.json",
    )
    ∷ (
      "reviewer_attestation.risk_review.json",
      attestation "risk_review" "audit_report.risk_review.json",
    )
    ∷ ("reviewer_key_registry.research_gate.json", registry)
    ∷ ("reviewer_key_registry.paper_gate.json", registry)
    ∷ ("reviewer_key_registry.risk_review.json", registry)
    ∷ ("trusted.json", registry)
    ∷ (
      "audit_report.paper_gate.json",
      audit "paper_gate" (
          fingerprint "paper_plan.json"
          ∷ fingerprint "observation_manifest.json"
          ∷ fingerprint "divergence_report.json"
          ∷ []),
    )
    ∷ ("paper_plan.json", plan)
    ∷ ("observation_manifest.json", nil)
    ∷ ("divergence_report.json", divergence)
    ∷ (
      "audit_report.risk_review.json",
      audit "risk_review" (
          object (
            dict (
              ("path", text "risk_report.json") ∷ ("sha256", text "0123456789abcdef01234567") ∷ []))
          ∷ fingerprint "approval_pack.json"
          ∷ fingerprint "config_diff.json"
          ∷ []),
    )
    ∷ ("risk_report.json", dict (("package_id", text package_id) ∷ ("verdict", text "pass") ∷ []))
    ∷ (
      "approval_pack.json",
      dict (
          ("requested_gate", text "risk_review")
          ∷ ("status", text "packaged")
          ∷ ("evidence", object (dict (("risk_reports", array (items (text "risk" ∷ []))) ∷ [])))
          ∷ ("config_hash", text "config")
          ∷ []),
    )
    ∷ ("config_diff.json", dict (("after_hash", text "config") ∷ []))
    ∷ []
