-- ===== src/HttpClient/Config.antt =====
-- `NewClient` of internal/nutanix/client.go.
use nutanix_vma.Prelude.{ℕ, ◌==◌, String, Bool, not, ◌||◌, is_empty, trim_slashes, if◌then◌else◌}
use nutanix_vma.HttpClient.{Client, ClientError, Result}

-- `ClientConfig`, its times in seconds; the TLS settings are in `transport`, which says whether
-- `buildTransport` succeeds.
pub record ClientConfig : Type 0 where
  pub host : String
  pub username : String
  pub password : String
  pub timeout : ℕ
  pub max_retries : ℕ
  pub transport : Bool

pub record HttpClient : Type 0 where
  pub client : Client
  pub timeout : ℕ

-- `0` stands for what the configuration leaves out.
abbrev pub or_default : ℕ → ℕ → ℕ
or_default n default = if n == 0 then default else n

unfoldable pub new_client : ClientConfig → Result HttpClient
unfolding trim_slashes
new_client config =
    if is_empty config.host
    then Result.err ClientError.no_host
    else if is_empty config.username || is_empty config.password
    then Result.err ClientError.no_credentials
    else if not config.transport
    then Result.err ClientError.no_transport
    else Result.ok (record {
      client = record {
        host = trim_slashes config.host;
        username = config.username;
        password = config.password;
        max_retries = or_default config.max_retries 3;
      };
      timeout = or_default config.timeout 30;
    })
