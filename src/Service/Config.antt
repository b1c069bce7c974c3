-- ===== src/Service/Config.antt =====
-- config.go: the settings of the service, and how they come about.
pub mod Laws
use dcos_metrics.Prelude.{
  ℕ, zero, suc, ◌+◌, ◌-◌, ◌≤◌, ◌<◌, String, ◌≡◌, refl, sym, ap, ◌∙◌, ◌≢◌, ◌⊎◌, inl, inr, Bool, true,
  false, ◌&&◌, ◌||◌, not, Option, none, some, List, [], ◌∷◌, ◌++◌, arith, ◌==◌, eq_iff,
  if◌then◌else◌, contains, ◌*◌, ◌%◌, ◌^◌, ltb,
}
use dcos_metrics.Service.Client.{Certificates, Client, new_metrics_client}
use dcos_metrics.Service.{Result, ◌>>>◌, or_failed, exited, failed, ok}
use dcos_metrics.Prelude.Int.{ℤ, pos_part, pos, ◌*ℤ◌, ltb_ℤ, neg_part, negsuc, wrap}
use dcos_metrics.Collectors.Framework.Throttle.{Limits}
use dcos_metrics.Collectors.{NodeInfo}

-- Durations are `int64` numbers of nanoseconds.
abbrev pub duration : ℕ → ℤ
duration s = pos (s * 1000000000)

pub record FrameworkConfig : Type 0 where
  pub listen_endpoint : String
  pub record_input_log : Bool
  pub limits : Limits

pub record AgentConfig : Type 0 where
  pub poll_period : ℤ
  pub port : ℕ
  pub request_protocol : String
  pub request_timeout : ℤ
  pub http_client : Option Client

pub record NodeConfig : Type 0 where
  pub poll_period : ℤ

pub record ProducerConfig : Type 0 where
  pub port : ℕ
  pub cache_expiry : ℤ

-- The collectors are behind pointers, which the file can set to null.
pub record Config : Type 0 where
  pub http_profiler : Bool
  pub framework : Option FrameworkConfig
  pub node : Option NodeConfig
  pub mesos_agent : Option AgentConfig
  pub http : ProducerConfig
  pub prometheus : ProducerConfig
  pub iam_config_path : String
  pub ca_certificate_path : String
  pub node_info : NodeInfo
  pub dcos_role : String
  pub config_path : String
  pub log_level : String
  pub version_flag : Bool

abbrev pub no_node_info : NodeInfo
no_node_info = record {
  ip_address = "";
  mesos_id = "";
  cluster_id = "";
  hostname = "";
  leader = "";
}

-- `newConfig`.
abbrev pub new_config : Config
new_config = record {
  http_profiler = false;
  framework = some (record {
    listen_endpoint = "127.0.0.1:8124";
    record_input_log = false;
    limits = record { amount_kbytes = pos 20480; period = pos 60 };
  });
  node = some (record { poll_period = duration 60 });
  mesos_agent = some (record {
    poll_period = duration 60;
    port = 5051;
    request_protocol = "http";
    request_timeout = duration 5;
    http_client = none;
  });
  http = record { port = 9000; cache_expiry = duration 120 };
  prometheus = record { port = 9273; cache_expiry = duration 60 };
  iam_config_path = "";
  ca_certificate_path = "";
  node_info = no_node_info;
  dcos_role = "";
  config_path = "";
  log_level = "info";
  version_flag = false;
}

-- What a `nodeutil.NodeInfo` answers; `none` is an error.
pub record NodeUtil : Type 0 where
  pub detect_ip : Option String
  pub mesos_id : Option String
  pub cluster_id : Option String

-- What the service meets outside of it: the flags on the command line, the configuration file, the
-- certificates, and the node.
pub record Environment : Type 0 where
  pub certificates : Certificates
  -- the package flag, which sets the four flags of `setFlags`
  pub parse_flags : List String → Config → Result Config
  pub read_file : String → Option String
  -- the package yaml
  pub unmarshal : String → Config → Option Config
  -- `nodeutil.NewNodeInfo`, for a client, a role and a URL
  pub new_node_info : Client → String → String → Option NodeUtil

abbrev pub state_url : Bool → String
state_url use_ssl =
    if use_ssl then "https://leader.mesos:5050/state" else "http://leader.mesos:5050/state"

module _ (env : Environment) where
  open env use {certificates, parse_flags, read_file, unmarshal, new_node_info}

  unfoldable pub load_config : Config → Result Config
  load_config c = or_failed (read_file c.config_path) "could not read" >>> λ b.
      or_failed (unmarshal b c) "could not unmarshal"

  unfoldable pub get_node_info_from_url : String → Config → Result NodeUtil
  get_node_info_from_url url c =
      new_metrics_client certificates c.ca_certificate_path c.iam_config_path >>> λ client.
      or_failed (new_node_info client c.dcos_role url) "could not get nodeInfo"

  -- `getNodeInfo` up to the Mesos id, and what follows it.
  unfoldable pub with_ip : String → Config → Config
  with_ip ip c = record c { node_info = record c.node_info { ip_address = ip; hostname = ip } }

  unfoldable pub with_ids : String → NodeUtil → Config → Result Config
  with_ids mid node c = or_failed node.cluster_id "could not get cluster ID" >>> λ cid.
      ok (record c {
        node_info = record c.node_info {
          mesos_id = mid;
          cluster_id = cid;
          leader = "leader.mesos:5050";
        };
      })

  -- What follows when the node was reached; `retry` is what an error at the Mesos id leads to.
  unfoldable pub informed_by : (Config → Result Config) → Config → NodeUtil → Result Config
  informed_by retry c node = elim node.detect_ip [
    | none ↦ failed "could not detect node IP"
    | some ip ↦ elim node.mesos_id [
      | none ↦ retry (with_ip ip c)
      | some mid ↦ with_ids mid node (with_ip ip c)
    ]
  ]

  unfoldable pub node_info_over : Bool → (Config → Result Config) → Config → Result Config
  node_info_over use_ssl retry c =
      get_node_info_from_url (state_url use_ssl) c >>> informed_by retry c

  abbrev pub no_mesos_id : Config → Result Config
  no_mesos_id c = failed "could not get Mesos node ID"

  -- `getNodeInfo`: it calls itself once at most, without SSL.
  unfoldable pub get_node_info : Bool → Config → Result Config
  get_node_info attempt_ssl c =
      if attempt_ssl && not (c.iam_config_path == "")
      then node_info_over true (node_info_over false no_mesos_id) c
      else node_info_over false no_mesos_id c

  -- The tests of the role.
  unfoldable pub check_role : Config → Result Config
  check_role c =
      if contains " " c.dcos_role
      then failed "must specify exactly one DC/OS role (master or agent)"
      else if not (c.dcos_role == "master") && not (c.dcos_role == "agent")
      then failed "expected role to be 'master' or 'agent'"
      else ok c

  -- A poll period behind a nil pointer is a panic.
  unfoldable pub raise_expiry : Config → Result Config
  raise_expiry c = elim c.mesos_agent [
    | none ↦ exited 2
    | some a ↦
        let least = wrap 64 (a.poll_period *ℤ pos 2) in
        ok (record c {
          http = record c.http {
            cache_expiry = if ltb_ℤ c.http.cache_expiry least then least else c.http.cache_expiry;
          };
        })
  ]

  unfoldable pub set_client : Client → Config → Config
  set_client client c = elim c.mesos_agent [
    | none ↦ c
    | some a ↦ record c { mesos_agent = some (record a { http_client = some client }) }
  ]

  unfoldable pub read_settings : Config → Result Config
  read_settings c =
      if c.version_flag then exited 0 else if c.config_path == "" then ok c else load_config c

  unfoldable pub with_client : Config → Result Config
  with_client c =
      new_metrics_client certificates c.ca_certificate_path c.iam_config_path >>> λ client.
      ok (set_client client c)

  -- `getNewConfig`: the settings, and then what is asked of the node.
  unfoldable pub get_settings : List String → Result Config
  get_settings args = parse_flags args new_config >>> read_settings >>> check_role >>> raise_expiry

  unfoldable pub get_new_config : List String → Result Config
  get_new_config args = get_settings args >>> get_node_info true >>> with_client
