-- ===== src/Markup/FormLabels.antt =====
-- The forms of frontend/src/components/DomainModal.tsx, HookModal.tsx and ProjectModal.tsx: each id
-- that an element refers to is the id of an element of the same form.
use tether_ddns.Prelude.{ℕ, ◌≡◌, String, Str, Bool, true, List, ℤ, str_eq_code}
use tether_ddns.Types.{Provider, HookDef, HookEventDef}
use tether_ddns.FormErrors.{FormErrors}
use tether_ddns.Forms.{DomainFormValue, HookFormValue}
use tether_ddns.Forms.Project.{ProjectModal}
use tether_ddns.Forms.Schema.{JsonSchema}
use tether_ddns.Html.{ids, refs}
use tether_ddns.Markup.DomainForm.{Menus, domain_modal}
use tether_ddns.Markup.HookForm.{hook_modal}
use tether_ddns.Markup.ProjectForm.{project_modal}
use tether_ddns.Markup.Resolve.{resolve}
use tether_ddns.Markup.DomainLabels.{domain-IsResolved}
use tether_ddns.Markup.HookLabels.{hook-IsResolved}
use tether_ddns.Markup.ProjectLabels.{project-IsResolved}

-- Each id that an element of one of the three forms refers to, in a label or as its description, is
-- the id of an element of the same form: for every schema of a provider or hook, every value and
-- whichever errors there are.
pub forms_resolve :
    (upper : ℕ → Str) (number_of : String → ℤ) (title_id : String) (is_open editing : Bool)
    (providers : List Provider) (hooks : List HookDef) (schema : JsonSchema)
    (available : List HookEventDef) (menus : Menus) (s : FormErrors) (domain : DomainFormValue)
    (hook : HookFormValue) (project : ProjectModal)
    → let d =
        domain_modal upper number_of title_id is_open editing providers schema menus s domain in
      let h =
        hook_modal upper number_of title_id is_open editing hooks schema available menus.first s
          hook in
      let p = project_modal title_id is_open editing project in
      (resolve (ids d) (refs d) ≡ true)
      × (resolve (ids h) (refs h) ≡ true)
      × (resolve (ids p) (refs p) ≡ true)
forms_resolve upper number_of title_id is_open editing providers hooks schema available menus s
      domain hook project =
    (
      (domain-IsResolved upper number_of title_id is_open editing providers schema menus s
          domain).found,
      (hook-IsResolved upper number_of title_id is_open editing hooks schema available menus.first s
          hook).found,
      (project-IsResolved title_id is_open editing project).found,
    )
