-- ===== src/Adapters/Sanitize.antt =====
-- packages/adapters/src/common/sanitize.ts: the texts that hold a secret.
pub mod Kinds
pub mod Record
use kumomiru.Prelude.{
  ℕ, String, Bool, true, false, not, ◌&&◌, ◌||◌, Option, none, some, List, [], ◌∷◌, ◌++◌, foldl,
  if◌then◌else◌, nat_eq, join, ◌+ₛ◌, ◌==◌,
}
use kumomiru.JsSet
use kumomiru.Graph.Schema.{Severity, Json, Members, Attributes, Finding, plain_finding}
use kumomiru.Adapters.HashId.{hash_id}
use kumomiru.Adapters.Regex.{
  Re, unit, exactly, at_least, edge, optional, is_lower, is_upper, is_digit, is_space, test, lit,
  lit_i, sequence, one_of,
}

pub record Detector : Type 0 where
  pub kind : String
  pub re : Re

abbrev is_quote : ℕ → Bool
is_quote c = nat_eq c b'"' || nat_eq c 39

abbrev is_letter : ℕ → Bool
is_letter c = is_lower c || is_upper c

abbrev is_alphanumeric : ℕ → Bool
is_alphanumeric c = is_letter c || is_digit c

abbrev is_assign : ℕ → Bool
is_assign c = nat_eq c b'=' || nat_eq c b':'

-- `[^\s:/@]`
abbrev is_plain : ℕ → Bool
is_plain c = not (is_space c || nat_eq c b':' || nat_eq c b'/' || nat_eq c b'@')

abbrev quote : Re
quote = optional (unit is_quote)

abbrev is_joiner : ℕ → Bool
is_joiner c = nat_eq c b'_' || nat_eq c b'-'

abbrev is_scheme : ℕ → Bool
is_scheme c = is_alphanumeric c || nat_eq c b'+' || nat_eq c b'.' || nat_eq c b'-'

unfoldable pub detectors : List Detector
unfolding lit lit_i
detectors =
    record {
      kind = "aws-access-key-id";
      re = sequence edge (
          one_of (lit "AKIA") (lit "ASIA" ∷ [])
          ∷ exactly (λ c. is_upper c || is_digit c) 16
          ∷ edge
          ∷ []);
    }
    ∷ record {
      kind = "aws-secret-access-key";
      re = sequence edge (
          lit_i "aws_secret_access_key"
          ∷ at_least is_space 0
          ∷ unit is_assign
          ∷ at_least is_space 0
          ∷ quote
          ∷ exactly (λ c. is_alphanumeric c || nat_eq c b'/' || nat_eq c b'+') 40
          ∷ edge
          ∷ []);
    }
    ∷ record {
      kind = "private-key";
      re = sequence (lit "-----BEGIN ") (
          optional (one_of (lit "RSA ") (lit "EC " ∷ lit "OPENSSH " ∷ []))
          ∷ lit "PRIVATE KEY-----"
          ∷ []);
    }
    ∷ record {
      kind = "generic-secret-assignment";
      re =
          sequence
            (one_of (lit_i "password") (
              lit_i "passwd"
              ∷ lit_i "secret"
              ∷ sequence (lit_i "api") (optional (unit is_joiner) ∷ lit_i "key" ∷ [])
              ∷ lit_i "token"
              ∷ sequence (lit_i "access") (optional (unit is_joiner) ∷ lit_i "key" ∷ [])
              ∷ []))
            (quote
              ∷ at_least is_space 0
              ∷ unit is_assign
              ∷ at_least is_space 0
              ∷ quote
              ∷ at_least (λ c. not (is_space c || is_quote c)) 8
              ∷ []);
    }
    ∷ record {
      kind = "github-token";
      re = sequence edge (
          one_of (lit "ghp") (lit "gho" ∷ lit "ghu" ∷ lit "ghs" ∷ lit "ghr" ∷ [])
          ∷ lit "_"
          ∷ exactly is_alphanumeric 36
          ∷ edge
          ∷ []);
    }
    ∷ record {
      kind = "slack-token";
      re = sequence edge (
          lit "xox"
          ∷ unit (λ c.
            nat_eq c b'a' || nat_eq c b'b' || nat_eq c b'p' || nat_eq c b'r' || nat_eq c b's')
          ∷ lit "-"
          ∷ at_least (λ c. is_alphanumeric c || nat_eq c b'-') 10
          ∷ edge
          ∷ []);
    }
    ∷ record {
      kind = "stripe-key";
      re = sequence edge (
          one_of (lit "sk") (lit "rk" ∷ [])
          ∷ lit "_"
          ∷ one_of (lit "live") (lit "test" ∷ [])
          ∷ lit "_"
          ∷ at_least is_alphanumeric 16
          ∷ edge
          ∷ []);
    }
    ∷ record {
      kind = "google-api-key";
      re =
          sequence edge
            (lit "AIza" ∷ exactly (λ c. is_alphanumeric c || is_joiner c) 35 ∷ edge ∷ []);
    }
    ∷ record {
      kind = "url-credentials";
      re = sequence edge (
          unit is_letter
          ∷ at_least is_scheme 0
          ∷ lit "://"
          ∷ at_least is_plain 1
          ∷ lit ":"
          ∷ at_least is_plain 1
          ∷ lit "@"
          ∷ []);
    }
    ∷ []

pub record ScanResult : Type 0 where
  pub found : Bool
  pub kinds : List String

abbrev pub is_cons {ℓ} : {A : Type ℓ} → List A → Bool
is_cons [] = false
is_cons (x ∷ xs) = true

unfoldable pub detect : String → List String → Detector → List String
unfolding test JsSet.has
detect text kinds d =
    if test d.re text && not (JsSet.has d.kind kinds) then kinds ++ d.kind ∷ [] else kinds

unfoldable pub scan_text : String → ScanResult
unfolding detect detectors
scan_text text =
    let kinds = foldl (detect text) [] detectors in record { found = is_cons kinds; kinds = kinds }

pub record RecordScan : Type 0 where
  pub found : Bool
  pub keys : List String
  pub kinds : List String

-- The body of the loop over the entries, on `keys` and `kinds`.
unfoldable pub scan_entry : List String × List String → String × Json → List String × List String
unfolding scan_text JsSet.add_all
scan_entry acc (k, Json.str v) =
    let res = scan_text (k +ₛ "=" +ₛ v) in
    if res.found then (acc.0 ++ k ∷ [], JsSet.add_all acc.1 res.kinds) else acc
scan_entry acc (k, _) = acc

unfoldable pub scan_record : Attributes → RecordScan
unfolding scan_entry
scan_record entries =
    let (keys, kinds) = foldl scan_entry ([], []) entries in
    record { found = is_cons keys; keys = keys; kinds = kinds }

-- `{ secretPresent: true, kind }`
abbrev pub marker : String → Json
marker kind = Json.obj (
    Members.member "secretPresent" (Json.bool true)
      (Members.member "kind" (Json.str kind) Members.end))

unfoldable pub plaintext_secret_finding : String → String → List String → Finding
unfolding hash_id
plaintext_secret_finding node_id place kinds =
    plain_finding ("f-secret-" +ₛ hash_id (node_id +ₛ place)) Severity.high "plaintext-secret"
      (some node_id) ("Plaintext secret detected in " +ₛ place)
      ("Detected likely secret material ("
        +ₛ join ", " kinds
        +ₛ ") in "
        +ₛ place
        +ₛ ". The value was redacted at ingestion; rotate the credential and move it to a secrets manager.")
