-- ===== src/Tests/Feeds.antt =====
-- A failed control of Security Hub, and the theorem on its mapping applied to it.
use kumomiru.Prelude.{String, ◌≡◌, refl, Option, none, some, List, [], ◌∷◌, map, All}
use kumomiru.Adapters.Asff.{AsffFinding, map_asff_findings}
use kumomiru.Adapters.Asff.Mapped.{IsMapped, map_asff_findings-IsMapped}

abbrev lower : String → String
lower s = s

abbrev failed : AsffFinding
failed = record {
  id = "arn:aws:securityhub:eu-west-1:111111111111:finding/1";
  product_name = some "Security Hub";
  generator_id = none;
  title = "Port 22 is open";
  description = none;
  severity_label = some "HIGH";
  compliance_status = some "FAILED";
  security_control_id = some "EC2.13";
  resource_ids = "sg" ∷ [];
  resource_types = "AwsEc2SecurityGroup" ∷ [];
  workflow_status = some "NEW";
  updated_at = none;
  remediation_text = none;
  remediation_url = none;
}

abbrev passed : AsffFinding
passed = record failed { compliance_status = some "PASSED"; security_control_id = some "EC2.2" }

map_asff_findings-IsMapped_example :
    All
      (IsMapped lower
        ("sg" ∷ [])
        (map_asff_findings lower ("sg" ∷ []) (failed ∷ passed ∷ [])).covered_controls)
      (map_asff_findings lower ("sg" ∷ []) (failed ∷ passed ∷ [])).findings
map_asff_findings-IsMapped_example =
    map_asff_findings-IsMapped lower ("sg" ∷ []) (failed ∷ passed ∷ [])

-- A control that passed is covered and has no finding.
finding_ids :
    map (λ f. f.id) (map_asff_findings lower ("sg" ∷ []) (failed ∷ passed ∷ [])).findings
    ≡ "f-sh-arn-aws-securityhub-eu-west-1-111111111111-finding-1" ∷ []
unfolding map_asff_findings
finding_ids = refl

covered :
    (map_asff_findings lower ("sg" ∷ []) (failed ∷ passed ∷ [])).covered_controls
    ≡ "EC2.13" ∷ "EC2.2" ∷ []
unfolding map_asff_findings kumomiru.Prelude.text_le
covered = refl
