-- ===== src/Forms.antt =====
-- The values of the forms of frontend/src/components/DomainModal.tsx, HookModal.tsx and
-- ProjectModal.tsx.
pub mod Domain
pub mod Hook
pub mod Project
pub mod Errors
pub mod Schema
mod Tests
use tether_ddns.Prelude.{ℕ, String, Bool, List}
use tether_ddns.Types.{Value}

pub record DomainFormValue : Type 0 where
  pub hostname : String
  pub provider : String
  pub record_type : String
  pub enabled : Bool
  pub provider_config : List (String × Value)

pub record HookFormValue : Type 0 where
  pub hook : String
  pub events : List String
  pub config : List (String × Value)

pub record ProjectFormValue : Type 0 where
  pub name : String
  pub base_url : String
  pub api_key : String
  pub poll_interval : ℕ
