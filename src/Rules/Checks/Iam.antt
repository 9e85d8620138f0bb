-- ===== src/Rules/Checks/Iam.antt =====
-- packages/rules/src/checks/iam.ts: the rules on the root user, passwords and keys.
pub mod Age
use kumomiru.Prelude.{
  ℕ, zero, suc, ◌+◌, ◌-◌, ◌/◌, String, Bool, true, false, not, ◌&&◌, ◌||◌, Option, none, some, List,
  [], ◌∷◌, ◌++◌, map, if◌then◌else◌, ◌==◌, join, ◌+ₛ◌, or_else, ltb, leb, nat_eq, any, keep_if,
  find_first,
}
use kumomiru.JsMap
use kumomiru.Graph.Schema.{
  Severity, Number, pos, negsuc, Json, Items, Attributes, CloudNode, Graph, GraphMeta, Remediation,
}
use kumomiru.Graph.Json.{show}
use kumomiru.Rules.{CheckRule, AdoptRule, RuleBase, RuleContext, RuleOutcome}
use kumomiru.Graph.Values.{
  is_true, is_false, is_text, is_truthy, elements, list_of, field, number_of, text_of, texts_of,
  list_or_none, items,
}
use kumomiru.Rules.Checks.{
  fsbp, csf, attribute, has_attribute, number_le, number_lt, number_is, show_number, fail_with,
  fail_if, pass_if, fail_with_any, when_present,
}

-- `p.minimumLength < 14` and `(p.reusePrevention ?? 0) < 24` of a number that may be missing.
abbrev length_gap : Option Number → List String
length_gap none = []
length_gap (some l) =
    if number_lt l (Number.pos 14) then ("minimum length " +ₛ show_number l +ₛ " < 14") ∷ [] else []

abbrev reuse_gap : Number → List String
reuse_gap r =
    if number_lt r (Number.pos 24)
    then ("reuse prevention " +ₛ show_number r +ₛ " < 24") ∷ []
    else []

abbrev missing : String → String → Json → List String
missing key message p = if is_truthy (field key p) then [] else message ∷ []

unfoldable pub policy_gaps : Json → List String
unfolding field show_number
policy_gaps p =
    length_gap (number_of (field "minimumLength" p))
    ++ missing "requireSymbols" "symbols not required" p
    ++ missing "requireNumbers" "numbers not required" p
    ++ missing "requireUppercase" "uppercase not required" p
    ++ missing "requireLowercase" "lowercase not required" p
    ++ reuse_gap (or_else (number_of (field "reusePrevention" p)) (Number.pos 0))

abbrev with_policy : Json → List String → RuleOutcome
with_policy p [] = RuleOutcome.pass
with_policy p (g ∷ gs) = RuleOutcome.fail (join "; " (g ∷ gs)) (some (("policy", p) ∷ [])) none

unfoldable pub password_check : Json → RuleOutcome
unfolding policy_gaps
password_check p =
    if not (is_truthy p)
    then fail_with "no account password policy is set (AWS defaults apply)"
    else with_policy p (policy_gaps p)

abbrev pub day : ℕ
day = 86400000

-- `Math.floor((now - t) / DAY)`
abbrev pub days_between : ℕ → ℕ → Number
days_between now t =
    if leb t now then Number.pos ((now - t) / day) else Number.negsuc ((t - now - 1) / day)

-- `if (age !== undefined && age > 90)`
abbrev pub over_90 : Option Number → (String → String) → List String
over_90 none message = []
over_90 (some d) message = if number_lt (Number.pos 90) d then message (show_number d) ∷ [] else []

-- `used ?? rotated`
abbrev instead : Json → Json → Json
instead Json.undefined rotated = rotated
instead Json.null rotated = rotated
instead used rotated = used

abbrev has_active_key : CloudNode → Bool
has_active_key n =
    is_true (attribute n "accessKey1Active") || is_true (attribute n "accessKey2Active")

abbrev pub stale_or : List String → Bool → RuleOutcome
stale_or (s ∷ stale) used = fail_with (join "; " (s ∷ stale))
stale_or [] used = if used then RuleOutcome.pass else RuleOutcome.not_applicable

-- `Date.parse`, in milliseconds from 1970 on, and none for the NaN of a text that is no date.
module _ (date_parse : String → Option ℕ) where
  abbrev days_to : Option ℕ → Option ℕ → Option Number
  days_to (some now) (some t) = some (days_between now t)
  days_to _ _ = none

  -- A NaN is never over 90, as none is not.
  unfoldable pub days_since : Json → RuleContext → Option Number
  days_since (Json.str iso) ctx = days_to (date_parse ctx.graph.meta.generated_at) (date_parse iso)
  days_since _ ctx = none

  unfoldable pub stale_key : CloudNode → RuleContext → String → List String
  unfolding days_since attribute show_number
  stale_key n ctx k =
      if not (is_true (attribute n ("accessKey" +ₛ k +ₛ "Active")))
      then []
      else over_90 (days_since (attribute n ("accessKey" +ₛ k +ₛ "LastRotated")) ctx)
          (λ age. "key " +ₛ k +ₛ " is " +ₛ age +ₛ " days old")

  unfoldable pub idle_password : CloudNode → RuleContext → List String
  unfolding days_since attribute show_number
  idle_password n ctx =
      if is_true (attribute n "passwordEnabled")
      then over_90 (days_since (attribute n "passwordLastUsed") ctx)
          (λ d. "password unused for " +ₛ d +ₛ " days")
      else []

  unfoldable pub idle_key : CloudNode → RuleContext → String → List String
  unfolding days_since attribute show_number
  idle_key n ctx k =
      if not (is_true (attribute n ("accessKey" +ₛ k +ₛ "Active")))
      then []
      else over_90
          (days_since
            (instead (attribute n ("accessKey" +ₛ k +ₛ "LastUsed"))
              (attribute n ("accessKey" +ₛ k +ₛ "LastRotated")))
            ctx)
          (λ d. "access key " +ₛ k +ₛ " unused for " +ₛ d +ₛ " days")

abbrev pub root_access_keys : CheckRule
root_access_keys = record {
  base = record {
    id = "iam.root-access-keys";
    version = 1;
    title = "Root user has active access keys";
    severity = Severity.critical;
    kind = "root-access-keys";
    controls = fsbp "IAM.4" ∷ csf "PR.AA-01" ∷ [];
    remediation = record {
      text =
          "Delete the root user's access keys. Root should only ever sign in interactively with MFA for the handful of tasks that require it; everything else uses IAM roles.";
      cli =
          some
            "aws iam delete-access-key --access-key-id <AKIA...>   # as root, in the console or CloudShell";
      terraform = none;
    };
    replaces = none;
  };
  resource_types = "aws::account" ∷ [];
  requires = "iam:account-summary" ∷ [];
  check = λ n _.
      if is_true (attribute n "rootAccessKeysPresent")
      then fail_with "root access keys exist"
      else if is_false (attribute n "rootAccessKeysPresent")
      then RuleOutcome.pass
      else RuleOutcome.not_applicable;
}

abbrev pub root_mfa : CheckRule
root_mfa = record {
  base = record {
    id = "iam.root-mfa";
    version = 1;
    title = "Root user has no MFA";
    severity = Severity.critical;
    kind = "root-no-mfa";
    controls = fsbp "IAM.9" ∷ csf "PR.AA-01" ∷ [];
    remediation = record {
      text =
          "Enable MFA for the root user (a hardware key is preferred; FSBP IAM.6 requires hardware MFA). Store the device with the root credentials under dual control.";
      cli = none;
      terraform = none;
    };
    replaces = none;
  };
  resource_types = "aws::account" ∷ [];
  requires = "iam:account-summary" ∷ [];
  check = λ n _.
      if is_false (attribute n "rootMfaEnabled")
      then fail_with "root MFA is not enabled"
      else if is_true (attribute n "rootMfaEnabled")
      then RuleOutcome.pass
      else RuleOutcome.not_applicable;
}

abbrev pub password_policy : CheckRule
password_policy = record {
  base = record {
    id = "iam.password-policy";
    version = 1;
    title = "Account password policy is weak or missing";
    severity = Severity.medium;
    kind = "weak-password-policy";
    controls = fsbp "IAM.7" ∷ csf "PR.AA-01" ∷ [];
    remediation = record {
      text =
          "Set a password policy requiring at least 14 characters with upper, lower, number and symbol classes, and prevent reuse of the last 24 passwords.";
      cli =
          some
            "aws iam update-account-password-policy --minimum-password-length 14 --require-symbols --require-numbers --require-uppercase-characters --require-lowercase-characters --password-reuse-prevention 24";
      terraform = none;
    };
    replaces = none;
  };
  resource_types = "aws::account" ∷ [];
  requires = "iam:account-summary" ∷ [];
  check = λ n _. when_present n "passwordPolicy" (password_check (attribute n "passwordPolicy"));
}

abbrev pub user_console_mfa : CheckRule
user_console_mfa = record {
  base = record {
    id = "iam.user-console-mfa";
    version = 1;
    title = "IAM user with console password has no MFA";
    severity = Severity.high;
    kind = "user-no-mfa";
    controls = fsbp "IAM.5" ∷ csf "PR.AA-01" ∷ [];
    remediation = record {
      text =
          "Require MFA for every user with a console password, or better, move human access to IAM Identity Center and delete the console password.";
      cli =
          some
            "aws iam enable-mfa-device --user-name <user> --serial-number <arn> --authentication-code1 <c1> --authentication-code2 <c2>";
      terraform = none;
    };
    replaces = none;
  };
  resource_types = "aws::iam::user" ∷ [];
  requires = "iam:credential-report" ∷ [];
  check = λ n _. when_present n "passwordEnabled" (
      if not (is_true (attribute n "passwordEnabled"))
      then RuleOutcome.not_applicable
      else pass_if (is_true (attribute n "mfaActive")) "console password enabled without MFA");
}

module _ (date_parse : String → Option ℕ) where
  abbrev pub access_key_rotation : CheckRule
  access_key_rotation = record {
    base = record {
      id = "iam.access-key-rotation";
      version = 1;
      title = "IAM user access key older than 90 days";
      severity = Severity.medium;
      kind = "stale-access-key";
      controls = fsbp "IAM.3" ∷ csf "PR.AA-01" ∷ [];
      remediation = record {
        text =
            "Rotate the access key (create a new one, switch the consumer, deactivate then delete the old one). Prefer short-lived credentials via roles so there is no key to rotate.";
        cli =
            some
              "aws iam create-access-key --user-name <user>   # then update-access-key --status Inactive on the old one, then delete-access-key";
        terraform = none;
      };
      replaces = none;
    };
    resource_types = "aws::iam::user" ∷ [];
    requires = "iam:credential-report" ∷ [];
    check = λ n ctx. when_present n "accessKey1Active" (
        stale_or (stale_key date_parse n ctx "1" ++ stale_key date_parse n ctx "2")
          (has_active_key n));
  }

  abbrev pub unused_credentials : CheckRule
  unused_credentials = record {
    base = record {
      id = "iam.unused-credentials";
      version = 1;
      title = "IAM user credentials unused for 90 days";
      severity = Severity.medium;
      kind = "unused-credentials";
      controls = fsbp "IAM.8" ∷ csf "PR.AA-01" ∷ [];
      remediation = record {
        text =
            "Deactivate the unused password or access key; delete it after a grace period. Unused credentials are pure attack surface.";
        cli =
            some
              "aws iam update-access-key --user-name <user> --access-key-id <id> --status Inactive";
        terraform = none;
      };
      replaces = none;
    };
    resource_types = "aws::iam::user" ∷ [];
    requires = "iam:credential-report" ∷ [];
    check = λ n ctx. when_present n "passwordEnabled" (
        stale_or
          (idle_password date_parse n ctx
            ++ idle_key date_parse n ctx "1"
            ++ idle_key date_parse n ctx "2")
          (is_true (attribute n "passwordEnabled") || has_active_key n));
  }

  abbrev pub iam_rules : List CheckRule
  iam_rules =
      root_access_keys ∷ root_mfa ∷ password_policy ∷ user_console_mfa ∷ access_key_rotation
      ∷ unused_credentials ∷ []
