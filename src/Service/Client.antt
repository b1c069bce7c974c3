-- ===== src/Service/Client.antt =====
-- util/http: the client that is made of the certificates (helpers/helpers.go), and a request with it (client/client.go).
use dcos_metrics.Prelude.{ℕ, String, Bool, Option, none, some, ◌==◌, if◌then◌else◌, eqb}
use dcos_metrics.Service.{Result, ok, ◌>>>◌, or_failed, failed, exited}

-- How a client checks the other side: against a pool of certificates, or not at all.
pub data Tls : Type 0 where
  verified : (pool : String) → Tls
  unverified : Tls

-- `http.Client` with its transport; `iam` is the configuration that the round tripper reads.
pub record Client : Type 0 where
  pub tls : Tls
  pub iam : Option String

-- What the code uses of the system and of the packages x509 and dcos-go/dcos/http/transport.
pub record Certificates : Type 0 where
  pub read_file : String → Option String
  -- `AppendCertsFromPEM` on a new pool
  pub parse_pem : String → Option String
  -- `NewRoundTripper` with `OptionReadIAMConfig`
  pub reads_iam : String → Bool

module _ (env : Certificates) where
  open env use {read_file, parse_pem, reads_iam}

  unfoldable pub load_ca_pool : String → Result String
  load_ca_pool path = or_failed (read_file path) "could not read" >>> λ b.
      or_failed (parse_pem b) "CACertFile parsing failed"

  unfoldable pub get_transport : String → Result Tls
  get_transport ca_certificate_path =
      if ca_certificate_path == ""
      then ok unverified
      else (load_ca_pool ca_certificate_path >>> λ pool. ok (verified pool))

  -- A configuration that cannot be read ends the process.
  unfoldable pub add_iam : String → Tls → Result Client
  add_iam iam_config_path tls =
      if iam_config_path == ""
      then ok (record { tls = tls; iam = none })
      else if reads_iam iam_config_path
      then ok (record { tls = tls; iam = some iam_config_path })
      else exited 1

  unfoldable pub new_metrics_client : String → String → Result Client
  new_metrics_client ca_certificate_path iam_config_path =
      get_transport ca_certificate_path >>> add_iam iam_config_path

-- What the other side gives: its status, and its body if that can be read.
pub record Response : Type 0 where
  pub status_code : ℕ
  pub body : Option String

-- `Fetch`; `none` is an error in building or sending the request. An answer of 401 ends the process.
unfoldable pub fetch {ℓ} : {A : Type ℓ} → (String → Option A) → Option Response → Result A
fetch unmarshal none = failed "could not send"
fetch unmarshal (some resp) =
    if eqb resp.status_code 401
    then exited 1
    else if eqb resp.status_code 200
    then (or_failed resp.body "read error" >>> λ b.
        or_failed (unmarshal b) "Failed to unmarshal JSON")
    else failed "fetch error"
