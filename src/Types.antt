-- ===== src/Types.antt =====
-- frontend/src/types.ts: the data that the server sends. A time that the source holds in seconds,
-- with a fraction, is in whole milliseconds here; durations that the server keeps in whole
-- seconds stay in seconds.
use tether_ddns.Prelude.{ℕ, Bool, String, Option, List, ℤ}

-- A value of a provider's or a hook's configuration (`unknown` in the source).
pub data Value : Type 0 where
  null : Value
  boolean : Bool → Value
  number : ℤ → Value
  text : String → Value

pub record Provider : Type 0 where
  pub key : String
  pub display_name : String

pub record HookEventDef : Type 0 where
  pub key : String
  pub label : String

pub record HookDef : Type 0 where
  pub key : String
  pub display_name : String
  pub events : List HookEventDef

pub record DomainState : Type 0 where
  pub id : String
  pub status : String
  pub ip : Option String
  pub updated : Option ℕ
  pub message : String

pub record Settings : Type 0 where
  pub check_interval : ℕ
  pub ip_source : String
  pub update_on_startup : Bool
  pub retry_on_failure : Bool
  pub notify : Bool
  pub heartbeat_url : Option String
  pub heartbeat_interval : ℕ

pub record HeartbeatStatus : Type 0 where
  pub at : ℕ
  pub ok : Bool
  pub skipped : Bool
  pub error : Option String

pub record LogEntry : Type 0 where
  pub time : ℕ
  pub level : String
  pub logger : String
  pub message : String

pub record ResolverProbe : Type 0 where
  pub ip : String
  pub ok : Bool
  pub latency_ms : Option ℕ

pub record CheckRecord : Type 0 where
  pub ts : ℕ
  pub successes : ℕ
  pub total : ℕ

pub data Severity : Type 0 where
  degraded outage : Severity

pub record Incident : Type 0 where
  pub start : ℕ
  pub end : Option ℕ
  pub severity : Severity
  pub min_successes : ℕ
  pub total : ℕ
  pub failed : List String

pub record IncidentWindow : Type 0 where
  pub monitoring_since : ℕ
  pub rev : ℕ
  pub incidents : List Incident
  pub ongoing : Option Incident

pub record Reachability : Type 0 where
  pub since : ℕ
  pub rev : ℕ
  pub ongoing : Option Incident
  pub history : List CheckRecord
  pub latest : List ResolverProbe

pub data CheckState : Type 0 where
  new up grace down paused : CheckState

pub record HealthcheckRef : Type 0 where
  pub key : String
  pub name : String
  pub slug : String
  pub visible : Bool

pub record HealthchecksProject : Type 0 where
  pub id : String
  pub name : String
  pub base_url : String
  pub api_key : String
  pub poll_interval : ℕ
  pub show_on_overview : Bool
  pub fetched_at : Option ℕ
  pub checks : List HealthcheckRef

pub record CheckStatus : Type 0 where
  pub name : String
  pub slug : String
  pub status : CheckState
  pub last_ping : Option ℕ
  pub next_ping : Option ℕ
  pub timeout : Option ℕ
  pub schedule : Option String
  pub tz : Option String
  pub grace : ℕ

pub record ProjectRuntime : Type 0 where
  pub polled_at : Option ℕ
  pub ok : Bool
  pub error : Option String
  pub offline : Bool
  pub checks : List (String × CheckStatus)

pub record StateSnapshot : Type 0 where
  pub public_ipv4 : Option String
  pub public_ipv6 : Option String
  pub ipv4_changed_at : Option ℕ
  pub ipv6_changed_at : Option ℕ
  pub online : Bool
  pub next_check_at : Option ℕ
  pub heartbeat : Option HeartbeatStatus
  pub reachability : Reachability
  pub domains : List DomainState
  pub settings : Option Settings
  pub logs : Option (List LogEntry)
  pub healthchecks : Option (List (String × ProjectRuntime))

pub record DomainConfig : Type 0 where
  pub id : String
  pub hostname : String
  pub provider : String
  pub record_type : String
  pub enabled : Bool
  pub provider_config : Option (List (String × Value))

pub record HookConfig : Type 0 where
  pub id : String
  pub hook : String
  pub events : List String
  pub config : Option (List (String × Value))
