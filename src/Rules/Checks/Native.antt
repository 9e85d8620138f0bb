-- ===== src/Rules/Checks/Native.antt =====
-- packages/rules/src/checks/native.ts: the rules that adopt the findings of the passes.
use kumomiru.Prelude.{none, some, List, [], ◌∷◌}
use kumomiru.Graph.Schema.{Severity}
use kumomiru.Rules.{AdoptRule}
use kumomiru.Rules.Checks.{csf}

abbrev pub plaintext_secret : AdoptRule
plaintext_secret = record {
  base = record {
    id = "kumomiru.plaintext-secret";
    version = 1;
    title = "Plaintext secret in resource configuration";
    severity = Severity.high;
    kind = "plaintext-secret";
    controls = csf "PR.AA-01" ∷ csf "PR.DS-01" ∷ [];
    remediation = record {
      text =
          "Move the value into Secrets Manager or an SSM SecureString parameter, reference it by ARN, rotate the exposed credential, and redeploy so the plaintext no longer appears in user-data, environment variables, or tags.";
      cli =
          some
            "aws secretsmanager create-secret --name <name> --secret-string '<value>'   # then reference the ARN";
      terraform = none;
    };
    replaces = none;
  };
  adopts = "plaintext-secret";
}

abbrev pub external_can_assume : AdoptRule
external_can_assume = record {
  base = record {
    id = "kumomiru.external-can-assume";
    version = 1;
    title = "Role can be assumed by an external principal";
    severity = Severity.critical;
    kind = "external-can-assume";
    controls = csf "PR.AA-05" ∷ [];
    remediation = record {
      text =
          "Confirm the trusted account is intended. If so, require an ExternalId condition and scope the trust to a specific role rather than the account root; if not, remove the principal from the trust policy.";
      cli =
          some
            "aws iam update-assume-role-policy --role-name <role> --policy-document file://trust.json";
      terraform = none;
    };
    replaces = none;
  };
  adopts = "external-can-assume";
}

abbrev pub public_resource : AdoptRule
public_resource = record {
  base = record {
    id = "kumomiru.public-resource";
    version = 1;
    title = "Resource policy grants access to everyone";
    severity = Severity.critical;
    kind = "public-resource";
    controls = csf "PR.AA-05" ∷ csf "PR.IR-01" ∷ [];
    remediation = record {
      text =
          "Replace the \"*\" principal with the specific accounts, roles, or services that need access, or gate it with a narrowing condition such as aws:PrincipalOrgID or aws:SourceArn.";
      cli = none;
      terraform = none;
    };
    replaces = none;
  };
  adopts = "public-resource";
}

abbrev pub external_can_access : AdoptRule
external_can_access = record {
  base = record {
    id = "kumomiru.external-can-access";
    version = 1;
    title = "External principal can access a resource";
    severity = Severity.high;
    kind = "external-can-access";
    controls = csf "PR.AA-05" ∷ [];
    remediation = record {
      text =
          "Confirm the external account is intended. If so, scope the grant to a specific role and add a condition; if not, remove the principal from the resource policy.";
      cli = none;
      terraform = none;
    };
    replaces = none;
  };
  adopts = "external-can-access";
}

abbrev pub native_rules : List AdoptRule
native_rules = plaintext_secret ∷ external_can_assume ∷ public_resource ∷ external_can_access ∷ []
