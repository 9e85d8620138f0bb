-- ===== src/Rules/Checks/TrancheB/Serving.antt =====
-- packages/rules/src/checks/tranche-b.ts: the rules on load balancers and containers.
use kumomiru.Prelude.{
  String, Bool, not, ◌&&◌, ◌||◌, none, some, List, [], ◌∷◌, map, if◌then◌else◌, join, ◌+ₛ◌, any,
  keep_if,
}
use kumomiru.Graph.Schema.{Severity, Json}
use kumomiru.Rules.{CheckRule, RuleOutcome}
use kumomiru.Graph.Values.{
  is_true, is_text, is_truthy, elements, list_of, field, number_of, list_or_none,
}
use kumomiru.Rules.Checks.{
  fsbp, csf, attribute, has_attribute, show_number, fail_with, fail_if, pass_if,
}

unfoldable pub is_plain_http : Json → Bool
unfolding field
is_plain_http l =
    is_text "HTTP" (field "protocol" l) && not (is_truthy (field "redirectsToHttps" l))

abbrev port_text : Json → String
port_text l = elim (number_of (field "port" l)) [ none ↦ "" | some p ↦ show_number p ]

abbrev pub plain_listeners : List Json → RuleOutcome
plain_listeners [] = RuleOutcome.pass
plain_listeners (b ∷ bad) = fail_with (
    "HTTP listener(s) on port "
    +ₛ join ", " (map port_text (b ∷ bad))
    +ₛ " serve without redirecting to HTTPS")

abbrev is_open_cidr : Json → Bool
is_open_cidr c = is_text "0.0.0.0/0" c || is_text "::/0" c

abbrev pub alb_http_redirect : CheckRule
alb_http_redirect = record {
  base = record {
    id = "elbv2.alb-http-redirects-to-https";
    version = 1;
    title = "ALB HTTP listener does not redirect to HTTPS";
    severity = Severity.medium;
    kind = "alb-plain-http";
    controls = fsbp "ELB.1" ∷ csf "PR.DS-02" ∷ [];
    remediation = record {
      text = "Change the HTTP listener's default action to a 301 redirect to HTTPS, or remove it.";
      cli =
          some
            "aws elbv2 modify-listener --listener-arn <arn> --default-actions Type=redirect,RedirectConfig='{Protocol=HTTPS,Port=443,StatusCode=HTTP_301}'";
      terraform = none;
    };
    replaces = none;
  };
  resource_types = "aws::elbv2::load-balancer" ∷ [];
  requires = "elbv2:load-balancer" ∷ [];
  check = λ n _.
      if not (is_text "application" (attribute n "lbType"))
      then RuleOutcome.not_applicable
      else elim (elements (attribute n "listeners")) [
        | none ↦ RuleOutcome.not_applicable
        | some vs ↦ plain_listeners (keep_if is_plain_http (list_of vs))
      ];
}

abbrev pub alb_access_logs : CheckRule
alb_access_logs = record {
  base = record {
    id = "elbv2.alb-access-logging";
    version = 1;
    title = "ALB access logging is disabled";
    severity = Severity.low;
    kind = "alb-no-logging";
    controls = fsbp "ELB.5" ∷ csf "DE.CM-01" ∷ [];
    remediation = record {
      text = "Enable access logs to an S3 bucket with the ELB log-delivery bucket policy.";
      cli =
          some
            "aws elbv2 modify-load-balancer-attributes --load-balancer-arn <arn> --attributes Key=access_logs.s3.enabled,Value=true Key=access_logs.s3.bucket,Value=<bucket>";
      terraform = none;
    };
    replaces = none;
  };
  resource_types = "aws::elbv2::load-balancer" ∷ [];
  requires = "elbv2:load-balancer" ∷ [];
  check = λ n _.
      if not (is_text "application" (attribute n "lbType"))
        || not (has_attribute n "accessLogsEnabled")
      then RuleOutcome.not_applicable
      else pass_if (is_true (attribute n "accessLogsEnabled")) "access_logs.s3.enabled is false";
}

abbrev pub ecs_service_public_ip : CheckRule
ecs_service_public_ip = record {
  base = record {
    id = "ecs.service-public-ip";
    version = 1;
    title = "ECS service assigns public IPs to tasks";
    severity = Severity.high;
    kind = "ecs-public-ip";
    controls = fsbp "ECS.2" ∷ csf "PR.IR-01" ∷ [];
    remediation = record {
      text =
          "Set assignPublicIp=DISABLED and run tasks in private subnets behind a load balancer or NAT.";
      cli =
          some
            "aws ecs update-service --cluster <cluster> --service <svc> --network-configuration 'awsvpcConfiguration={subnets=[...],securityGroups=[...],assignPublicIp=DISABLED}'";
      terraform = none;
    };
    replaces = none;
  };
  resource_types = "aws::ecs::service" ∷ [];
  requires = "ecs:cluster" ∷ [];
  check = λ n _. fail_if (is_true (attribute n "assignPublicIp")) "assignPublicIp is ENABLED";
}

abbrev pub eks_public_endpoint : CheckRule
eks_public_endpoint = record {
  base = record {
    id = "eks.public-endpoint";
    version = 1;
    title = "EKS control plane endpoint is open to the internet";
    severity = Severity.high;
    kind = "eks-public-endpoint";
    controls = fsbp "EKS.1" ∷ csf "PR.IR-01" ∷ [];
    remediation = record {
      text =
          "Enable private endpoint access and either disable public access or restrict publicAccessCidrs to your egress IPs.";
      cli =
          some
            "aws eks update-cluster-config --name <cluster> --resources-vpc-config endpointPrivateAccess=true,endpointPublicAccess=false";
      terraform = none;
    };
    replaces = none;
  };
  resource_types = "aws::eks::cluster" ∷ [];
  requires = "eks:cluster" ∷ [];
  check = λ n _.
      if not (is_true (attribute n "endpointPublicAccess"))
      then RuleOutcome.pass
      else fail_if (any is_open_cidr (list_or_none (attribute n "publicAccessCidrs")))
          "public endpoint reachable from 0.0.0.0/0";
}

abbrev pub eks_logging : CheckRule
eks_logging = record {
  base = record {
    id = "eks.control-plane-logging";
    version = 1;
    title = "EKS control plane logging is disabled";
    severity = Severity.low;
    kind = "eks-no-logging";
    controls = fsbp "EKS.8" ∷ csf "DE.CM-09" ∷ [];
    remediation = record {
      text = "Enable at least the api, audit, and authenticator log types.";
      cli =
          some
            "aws eks update-cluster-config --name <cluster> --logging '{\"clusterLogging\":[{\"types\":[\"api\",\"audit\",\"authenticator\"],\"enabled\":true}]}'";
      terraform = none;
    };
    replaces = none;
  };
  resource_types = "aws::eks::cluster" ∷ [];
  requires = "eks:cluster" ∷ [];
  check =
      λ n _. pass_if (is_true (attribute n "loggingEnabled")) "no control-plane log types enabled";
}
