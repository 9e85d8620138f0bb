-- ===== src/Rules/Checks/Builtin.antt =====
-- packages/rules/src/checks/index.ts, and `defaultRegistry` of packages/rules/src/registry.ts: the
-- built-in rules. The argument stands for `Date.parse`.
pub mod Registered
use kumomiru.Prelude.{ℕ, String, Option, ◌⊎◌, inl, inr, List, [], ◌∷◌, ◌++◌, map}
use kumomiru.Rules.{Rule, adopting, checking}
use kumomiru.Rules.Registry.{Registry, register_all}
use kumomiru.Rules.Checks.Native.{native_rules}
use kumomiru.Rules.Checks.Ec2.{ec2_rules}
use kumomiru.Rules.Checks.Rds.{rds_rules}
use kumomiru.Rules.Checks.Iam.{iam_rules}
use kumomiru.Rules.Checks.S3.{s3_rules}
use kumomiru.Rules.Checks.StorageEncryption.{storage_encryption_rules}
use kumomiru.Rules.Checks.Audit.{audit_rules}
use kumomiru.Rules.Checks.TrancheB.{tranche_b_rules}

abbrev pub builtin_rules : (String → Option ℕ) → List Rule
builtin_rules date_parse =
    map adopting native_rules
    ++ map checking ec2_rules
    ++ map checking rds_rules
    ++ map checking (iam_rules date_parse)
    ++ map checking s3_rules
    ++ map checking storage_encryption_rules
    ++ map checking audit_rules
    ++ map checking tranche_b_rules

unfoldable pub default_registry : (String → Option ℕ) → Registry ⊎ String
unfolding register_all
default_registry date_parse = register_all (builtin_rules date_parse) (inl [])
