-- ===== src/Rules/Checks/TrancheB.antt =====
-- packages/rules/src/checks/tranche-b.ts: the second tranche of the rules, in the order of the source.
pub mod Network
pub mod FirstMatch
pub mod Serving
pub mod Storage
pub mod Edge
use kumomiru.Prelude.{List, [], ◌∷◌}
use kumomiru.Rules.{CheckRule}
use kumomiru.Rules.Checks.TrancheB.Network.{
  nacl_unrestricted_admin_ports, default_sg_open, instance_imdsv2, launch_template_imdsv2,
}
use kumomiru.Rules.Checks.TrancheB.Serving.{
  alb_http_redirect, alb_access_logs, ecs_service_public_ip, eks_public_endpoint, eks_logging,
}
use kumomiru.Rules.Checks.TrancheB.Storage.{
  sqs_encrypted, sns_encrypted, dynamo_pitr, ecr_scan_on_push, ecr_tag_immutability, ecr_lifecycle,
  efs_encrypted,
}
use kumomiru.Rules.Checks.TrancheB.Edge.{
  cloud_front_viewer_https, cloud_front_logging, api_gateway_logging, rds_snapshot_public,
  rds_cluster_encrypted,
}

abbrev pub tranche_b_rules : List CheckRule
tranche_b_rules =
    nacl_unrestricted_admin_ports ∷ default_sg_open ∷ instance_imdsv2 ∷ launch_template_imdsv2
    ∷ alb_http_redirect ∷ alb_access_logs ∷ ecs_service_public_ip ∷ eks_public_endpoint
    ∷ eks_logging ∷ sqs_encrypted ∷ sns_encrypted ∷ dynamo_pitr ∷ ecr_scan_on_push
    ∷ ecr_tag_immutability ∷ ecr_lifecycle ∷ efs_encrypted ∷ cloud_front_viewer_https
    ∷ cloud_front_logging ∷ api_gateway_logging ∷ rds_snapshot_public ∷ rds_cluster_encrypted ∷ []
