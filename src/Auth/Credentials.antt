-- ===== src/Auth/Credentials.antt =====
-- internal/auth/credentials.go: the value that crosses the boundary between auth and client.
use ovh_cli.Prelude.{ℕ, String, Bool, ◌&&◌, ◌==◌, eqb}

-- `Method` is a string type with three named values.
abbrev pub Method : Type 0
Method = String

abbrev pub method_none : Method
method_none = ""

abbrev pub method_consumer_key : Method
method_consumer_key = "consumer_key"

abbrev pub method_oauth2 : Method
method_oauth2 = "oauth2"

-- A `time.Time` is the nanoseconds since the zero time, year 1 in UTC.
abbrev pub Time : Type 0
Time = ℕ

pub record Credentials : Type 0 where
  pub region : String
  pub profile : String
  pub method : Method
  pub application_key : String
  pub application_secret : String
  pub consumer_key : String
  pub client_id : String
  pub client_secret : String
  pub access_token : String
  pub refresh_token : String
  pub expiry : Time

-- `Credentials{}`
abbrev pub zero_credentials : Credentials
zero_credentials = record {
  region = "";
  profile = "";
  method = method_none;
  application_key = "";
  application_secret = "";
  consumer_key = "";
  client_id = "";
  client_secret = "";
  access_token = "";
  refresh_token = "";
  expiry = 0;
}

-- `c == Credentials{}`, field by field.
unfoldable pub is_zero : Credentials → Bool
is_zero c =
    c.region == ""
    && c.profile == ""
    && c.method == ""
    && c.application_key == ""
    && c.application_secret == ""
    && c.consumer_key == ""
    && c.client_id == ""
    && c.client_secret == ""
    && c.access_token == ""
    && c.refresh_token == ""
    && eqb c.expiry 0
