-- ===== src/Views/Settings.antt =====
-- The settings in frontend/src/views/SettingsView.tsx: what is sent, and the panel of the heartbeat.
use tether_ddns.Prelude.{List, ◌∷◌, ◌++◌}
use tether_ddns.Prelude.{
  ℕ, ◌≡◌, refl, String, Str, codes, Bool, true, false, not, ◌||◌, Option, none, some, [], ◌∷◌,
  str_beq, str_beq_iff, str_eq_code, arith, Bool-cases, inl, inr, if◌then◌else◌,
}
use tether_ddns.Prelude.Dict.{lookup}
use tether_ddns.Prelude.Strings.{trim}
use tether_ddns.FormErrors.{Errors}

-- What a control sends: a part of the settings.
pub data SettingsPatch : Type 0 where
  check_interval heartbeat_interval : ℕ → SettingsPatch
  update_on_startup notify retry_on_failure : Bool → SettingsPatch
  ip_source : String → SettingsPatch
  heartbeat_url : Option Str → SettingsPatch

-- The state of `HeartbeatPanel`.
pub record HeartbeatPanel : Type 0 where
  pub draft : Str
  pub err : Option String
  pub saving : Bool

-- `settings.heartbeat_url ?? ''`
abbrev pub saved_url : Option String → Str
saved_url none = []
saved_url (some u) = codes u

abbrev pub mounted : Str → HeartbeatPanel
mounted saved = record { draft = saved; err = none; saving = false }

unfoldable pub is_dirty : Str → HeartbeatPanel → Bool
is_dirty saved s = not (str_beq (trim s.draft) saved)

unfoldable pub types : String → HeartbeatPanel → HeartbeatPanel
types v s = record s { draft = codes v; err = none }

-- `draft.trim() || null`
abbrev pub url_or_null : Str → Option Str
url_or_null [] = none
url_or_null (c ∷ cs) = some (c ∷ cs)

-- `submit` up to its `await`, with what is sent.
unfoldable pub submit : Str → HeartbeatPanel → HeartbeatPanel × Option SettingsPatch
unfolding is_dirty
submit saved s =
    if not (is_dirty saved s) || s.saving
    then (s, none)
    else (record s { saving = true }, some (heartbeat_url (url_or_null (trim s.draft))))

-- How a save ends: with the url that is saved now, with an `ApiError`, or otherwise.
pub data SaveOutcome : Type 0 where
  accepted : Option String → SaveOutcome
  refused : Errors → SaveOutcome
  failed : SaveOutcome

unfoldable pub settle : SaveOutcome → HeartbeatPanel → HeartbeatPanel
settle (accepted next) s = record s { draft = saved_url next; saving = false }
settle (refused fields) s = record s { err = lookup (codes "heartbeat_url") fields; saving = false }
settle failed s = record s { err = none; saving = false }

-- The panel is keyed by the saved url: with another one it is mounted anew.
unfoldable pub rendered : Option String → Option String → HeartbeatPanel → HeartbeatPanel
rendered old new s = if str_beq (saved_url old) (saved_url new) then s else mounted (saved_url new)

submitted :
    (saved : Str) (s : HeartbeatPanel)
    → is_dirty saved s ≡ true
    → s.saving ≡ false
    → submit saved s
      ≡ (record s { saving = true }, some (heartbeat_url (url_or_null (trim s.draft))))
unfolding submit
submitted saved s d w = rw (d, w) refl

clean_after :
    (next : Option String) (s : HeartbeatPanel)
    → trim (saved_url next) ≡ saved_url next
    → s.draft ≡ saved_url next
    → is_dirty (saved_url next) s ≡ false
unfolding is_dirty
clean_after next s c e = rw (e, c, (str_beq_iff (saved_url next) (saved_url next)).1 refl) refl

accepted_lem :
    (old next : Option String) (s : HeartbeatPanel)
    → let t = rendered old next (settle (accepted next) s) in
      (t.draft ≡ saved_url next) × (t.saving ≡ false)
unfolding rendered settle
accepted_lem old next s = elim (Bool-cases (str_beq (saved_url old) (saved_url next))) [
  | inl same ↦ rw same (refl, refl)
  | inr other ↦ rw other (refl, refl)
]

refused_lem :
    (old : Option String) (fields : Errors) (s : HeartbeatPanel)
    → let t = rendered old old (settle (refused fields) s) in
      (t.draft ≡ s.draft) × (t.err ≡ lookup (codes "heartbeat_url") fields) × (t.saving ≡ false)
unfolding rendered settle
refused_lem old fields s =
    rw ((str_beq_iff (saved_url old) (saved_url old)).1 refl) (refl, refl, refl)

-- What the user does in the panel.
pub data PanelEvent : Type 0 where
  edits : String → PanelEvent
  clicks : PanelEvent

abbrev sent_list : Option SettingsPatch → List SettingsPatch
sent_list none = []
sent_list (some p) = p ∷ []

-- What the panel becomes, and what it sends.
unfoldable pub panel_step : Str → PanelEvent → HeartbeatPanel → HeartbeatPanel × List SettingsPatch
unfolding submit types
panel_step saved (edits v) s = (types v s, [])
panel_step saved clicks s = let (t, o) = submit saved s in (t, sent_list o)

unfoldable pub panel_run :
    Str → List PanelEvent → HeartbeatPanel → HeartbeatPanel × List SettingsPatch
panel_run saved [] s = (s, [])
panel_run saved (e ∷ es) s =
    let (t, now) = panel_step saved e s in
    let (u, later) = panel_run saved es t in (u, now ++ later)

waiting_step :
    (saved : Str) (e : PanelEvent) (s : HeartbeatPanel)
    → s.saving ≡ true
    → ((panel_step saved e s).1 ≡ []) × ((panel_step saved e s).0.saving ≡ true)
unfolding panel_step
waiting_step saved (edits v) s h = (refl, h)
waiting_step saved clicks s h = (ground arith, ground arith)

waiting_lem :
    (saved : Str) (es : List PanelEvent) (s : HeartbeatPanel)
    → s.saving ≡ true
    → (panel_run saved es s).1 ≡ []
unfolding panel_run
waiting_lem saved [] s h = refl
waiting_lem saved (e ∷ es) s h =
    let (quiet, still) = waiting_step saved e s h in
    rw (quiet, waiting_lem saved es (panel_step saved e s).0 still) refl

-- A save that is begun, since there is something to save and none is under way. Exactly the blank-free
-- draft is sent, or that there is no url; and whatever the user types and however often they click until
-- the answer comes, nothing else is. If the save is accepted, the panel then shows the url as the server
-- has it and has nothing to save, provided that the server keeps a url with no blanks around it; if it is
-- refused, the panel keeps what the user has typed by then, with the error of the field. In both cases it
-- waits no more.
pub heartbeat_save :
    (old next : Option String) (fields : Errors) (es : List PanelEvent) (s : HeartbeatPanel)
    → is_dirty (saved_url old) s ≡ true
    → s.saving ≡ false
    → trim (saved_url next) ≡ saved_url next
    → let (begun, request) = submit (saved_url old) s in
      let (edited, more) = panel_run (saved_url old) es begun in
      let good = rendered old next (settle (accepted next) edited) in
      let bad = rendered old old (settle (refused fields) edited) in
      (request ≡ some (heartbeat_url (url_or_null (trim s.draft))))
      × (more ≡ [])
      × (good.draft ≡ saved_url next)
      × (is_dirty (saved_url next) good ≡ false)
      × (good.saving ≡ false)
      × (bad.draft ≡ edited.draft)
      × (bad.err ≡ lookup (codes "heartbeat_url") fields)
      × (bad.saving ≡ false)
heartbeat_save old next fields es s dirty idle clean =
    let t = record s { saving = true } in
    let u = (panel_run (saved_url old) es t).0 in
    let (gd, gs) = accepted_lem old next u in
    let (bd, be, bs) = refused_lem old fields u in
    rw (submitted (saved_url old) s dirty idle) (
      refl,
      waiting_lem (saved_url old) es t refl,
      gd,
      clean_after next (rendered old next (settle (accepted next) u)) clean gd,
      gs,
      bd,
      be,
      bs,
    )
