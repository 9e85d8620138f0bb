-- ===== src/Adapters/Credentials.antt =====
-- packages/adapters/src/aws-live/credentials.ts: the broker lends the credentials that it holds to one
-- callback. The broker and the object that it was made from are one: `use` gives the object as the
-- callback leaves it behind. An exception is `inr`.
use kumomiru.Prelude.{String, ◌⊎◌, inr, Option, none, some}

pub record AwsCredentials : Type 0 where
  pub access_key_id : String
  pub secret_access_key : String
  pub session_token : Option String
  pub region : String

-- `#creds`
abbrev pub Broker : Type 0
Broker = Option AwsCredentials

abbrev pub spent_error : String
spent_error = "credential broker already spent"

abbrev pub scrubbed : AwsCredentials → AwsCredentials
scrubbed c = record c { access_key_id = ""; secret_access_key = ""; session_token = some "" }

-- What `use` comes to: the callback's result, the broker and the object afterwards.
pub record Used (A : Type 0) : Type 0 where
  pub result : A ⊎ String
  pub broker : Broker
  pub object : Option AwsCredentials

unfoldable pub use_broker : {A : Type 0} → (AwsCredentials → A ⊎ String) → Broker → Used A
use_broker fn none = record { result = inr spent_error; broker = none; object = none }
use_broker fn (some c) = record { result = fn c; broker = none; object = some (scrubbed c) }
