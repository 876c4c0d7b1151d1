-- ===== src/App/Deletes.antt =====
-- Deleting something from the page: the handlers of frontend/src/App.tsx.
use tether_ddns.Prelude.{
  String, Bool, true, false, Option, none, some, [], ◌∷◌, find?, ◌==◌, string_eq, if◌then◌else◌,
}
use tether_ddns.Prelude.Text.{lit}
use tether_ddns.Types.{DomainConfig, HookConfig, HealthchecksProject}
use tether_ddns.Api.{Request, delete_domain, delete_hook, delete_healthchecks}
use tether_ddns.App.{
  App, DeleteKind, domain, hook, project, PendingDelete, error, info, push_toast, Config,
  load_config,
}
use tether_ddns.App.Copy.{DeleteCopy, domain_delete_copy, hook_delete_copy, project_delete_copy}

unfoldable pub ask_delete : DeleteKind → String → DeleteCopy → App → App
ask_delete kind id copy s = record s {
  pending_delete = some (record { kind = kind; id = id; copy = copy });
  confirm_open = true;
}

abbrev pub find_domain : String → App → Option DomainConfig
find_domain id s = find? (λ (d : DomainConfig). d.id == id) s.domains

abbrev pub find_hook : String → App → Option HookConfig
find_hook id s = find? (λ (h : HookConfig). h.id == id) s.hooks

abbrev pub find_project : String → App → Option HealthchecksProject
find_project id s = find? (λ (p : HealthchecksProject). p.id == id) s.projects

unfoldable pub handle_delete : String → App → App
unfolding ask_delete
handle_delete id s = elim (find_domain id s) [
  | none ↦ s
  | some d ↦ ask_delete domain id (domain_delete_copy d s.providers) s
]

unfoldable pub handle_delete_hook : String → App → App
unfolding ask_delete
handle_delete_hook id s = elim (find_hook id s) [
  | none ↦ s
  | some h ↦ ask_delete hook id (hook_delete_copy h s.hook_defs) s
]

unfoldable pub handle_delete_project : (String → Option String) → String → App → App
unfolding ask_delete
handle_delete_project host_in id s = elim (find_project id s) [
  | none ↦ s
  | some p ↦ ask_delete project id (project_delete_copy host_in p) s
]

-- `{ domain: api.deleteDomain, … }[kind](id)`
abbrev pub remove : {B : Type 0} → DeleteKind → String → Request B
remove domain id = delete_domain id
remove hook id = delete_hook id
remove project id = delete_healthchecks id

abbrev start_delete : {B : Type 0} → Option PendingDelete → App → App × Option (Request B)
start_delete none s = (s, none)
start_delete (some p) s = (record s { deleting = true }, some (remove p.kind p.id))

-- `runPendingDelete` up to the answer to its request, which it returns.
unfoldable pub run_pending_delete : {B : Type 0} → App → App × Option (Request B)
run_pending_delete s = start_delete s.pending_delete s

abbrev pub capitalized : DeleteKind → String
capitalized domain = "Domain"
capitalized hook = "Hook"
capitalized project = "Project"

abbrev pub lower : DeleteKind → String
lower domain = "domain"
lower hook = "hook"
lower project = "project"

-- What it does on the answer, up to the end of `loadConfig`.
unfoldable pub delete_answered : DeleteKind → Bool → String → App → App
unfolding push_toast
delete_answered kind done toast s =
    let closed = record s { confirm_open = false } in
    if done
    then push_toast toast (lit (capitalized kind) ∷ lit " deleted" ∷ []) info closed
    else push_toast toast (lit "Failed to delete " ∷ lit (lower kind) ∷ []) error closed

-- The rest of it: `loadConfig` has ended, then `finally`.
unfoldable pub delete_finished : Option Config → App → App
unfolding load_config
delete_finished config s = record (load_config config s) { deleting = false }
