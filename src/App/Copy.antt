-- ===== src/App/Copy.antt =====
-- frontend/src/deleteCopy.tsx: the texts that ask before something is deleted.
use tether_ddns.Prelude.{String, Option, none, some, List, [], ◌∷◌, ◌++◌, find?, ◌==◌, string_eq}
use tether_ddns.Types.{Provider, HookDef, DomainConfig, HookConfig, HealthchecksProject}

-- A piece of a body: `<strong>` and `<code>` are kept.
pub data Span : Type 0 where
  plain strong code : String → Span

pub record DeleteCopy : Type 0 where
  pub title : String
  pub confirm_label : String
  pub body : List Span

-- `found?.display_name ?? key`
abbrev provider_name : Option Provider → String → String
provider_name none key = key
provider_name (some p) key = p.display_name

abbrev hook_name : Option HookDef → String → String
hook_name none key = key
hook_name (some d) key = d.display_name

unfoldable pub domain_delete_copy : DomainConfig → List Provider → DeleteCopy
domain_delete_copy domain providers =
    let name =
      provider_name (find? (λ (p : Provider). p.key == domain.provider) providers)
        domain.provider in
    record {
      title = "Delete domain";
      confirm_label = "Delete domain";
      body =
          strong domain.hostname
          ∷ plain
              " will stop being updated. Its settings, including credentials, are removed and must be re-entered to add it again. The DNS record at "
          ∷ strong name
          ∷ plain " is not changed."
          ∷ [];
    }

-- The events after the first, each after a comma.
abbrev more_events : List String → List Span
more_events [] = []
more_events (e ∷ es) = plain ", " ∷ code e ∷ more_events es

abbrev event_spans : List String → List Span
event_spans [] = plain "no events" ∷ []
event_spans (e ∷ es) = code e ∷ more_events es

unfoldable pub hook_delete_copy : HookConfig → List HookDef → DeleteCopy
hook_delete_copy hook defs =
    let name = hook_name (find? (λ (d : HookDef). d.key == hook.hook) defs) hook.hook in
    record {
      title = "Delete hook";
      confirm_label = "Delete hook";
      body =
          (strong name ∷ plain " (" ∷ event_spans hook.events)
          ++ plain
              ") will no longer run. Its settings, including any secrets, are removed and must be re-entered to add it again."
            ∷ [];
    }

-- `new URL(url).host`, which may throw, is a parameter.
unfoldable pub host_of : (String → Option String) → String → String
host_of host_in url = elim (host_in url) [ none ↦ url | some host ↦ host ]

unfoldable pub project_delete_copy : (String → Option String) → HealthchecksProject → DeleteCopy
unfolding host_of
project_delete_copy host_in project = record {
  title = "Delete project";
  confirm_label = "Delete project";
  body =
      strong project.name
      ∷ plain
          " will no longer be polled or shown. Its API key is removed and must be re-entered to add it again. Checks on "
      ∷ strong (host_of host_in project.base_url)
      ∷ plain " are not changed."
      ∷ [];
}
