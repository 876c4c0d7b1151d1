-- ===== src/FormErrors/Saving.antt =====
-- The saving of a form (`useFormErrors` in frontend/src/formErrors.ts) over any sequence of clicks
-- and answers.
use tether_ddns.Prelude.{
  ℕ, ◌+◌, ◌-◌, ◌≡◌, ◌≢◌, ◌⊎◌, inl, inr, refl, String, Str, Bool, true, false, Option, none, some,
  List, [], ◌∷◌, arith, Option-cases, ltb, if◌then◌else◌,
}
use tether_ddns.FormErrors.{
  FormErrors, use_form_errors, reset, clear, Outcome, resolved, api_error, other_error, submit,
  settle,
}

-- The form, the saves that have been started and not ended, and how many were started at all.
pub record Session : Type 0 where
  pub form : FormErrors
  pub in_flight : ℕ
  pub started : ℕ

pub data Event : Type 0 where
  submits resets : Event
  clears : (Str → Bool) → Event
  -- a save in flight ends
  settles : Outcome → Event

unfoldable pub step : Session → Event → Session
step s submits =
    let (form, go) = submit s.form in
    record {
      form = form;
      in_flight = if go then s.in_flight + 1 else s.in_flight;
      started = if go then s.started + 1 else s.started;
    }
step s resets = record s { form = reset s.form }
step s (clears match) = record s { form = clear match s.form }
step s (settles o) =
    if ltb 0 s.in_flight
    then record s { form = settle o s.form; in_flight = s.in_flight - 1 }
    else s

unfoldable pub run : Session → List Event → Session
run s [] = s
run s (e ∷ es) = run (step s e) es

abbrev pub opened : String → Session
opened fallback = record { form = use_form_errors fallback; in_flight = 0; started = 0 }

abbrev is_some {ℓ} : {A : Type ℓ} → Option A → Bool
is_some none = false
is_some (some _) = true

-- The flags tell whether a save is in flight, there is at most one, and the general error is shown
-- only where no field has one.
pub record IsValid (s : Session) : Type 0 where
  pub same_flag : s.form.saving ≡ s.form.busy
  pub one_save : s.in_flight ≡ (if s.form.busy then 1 else 0)
  pub one_error : is_some s.form.form_error ≡ true → s.form.errors ≡ []

step-IsValid : (s : Session) (e : Event) → IsValid s → IsValid (step s e)
unfolding step submit reset clear settle
step-IsValid s submits v = ground arith
step-IsValid s resets v = ground arith
step-IsValid s (clears match) v = ground arith
step-IsValid s (settles resolved) v = ground arith
step-IsValid s (settles (api_error [])) v = ground arith
step-IsValid s (settles (api_error (e ∷ es))) v = ground arith
step-IsValid s (settles other_error) v = ground arith

run-IsValid : (s : Session) (es : List Event) → IsValid s → IsValid (run s es)
unfolding run
run-IsValid s [] v = v
run-IsValid s (e ∷ es) v = run-IsValid (step s e) es (step-IsValid s e v)

-- However the user clicks and the server answers, at most one save of a form is in flight, the
-- button is disabled exactly while one is, and a general error is shown only where no field has one.
pub form_lem :
    (fallback : String) (es : List Event)
    → let s = run (opened fallback) es in
      (s.form.saving ≡ s.form.busy)
      × (s.in_flight ≡ (if s.form.busy then 1 else 0))
      × ((s.form.form_error ≡ none) ⊎ (s.form.errors ≡ []))
form_lem fallback es =
    let s = run (opened fallback) es in
    let v = run-IsValid (opened fallback) es (ground arith) in
    (
      v.same_flag,
      v.one_save,
      elim (Option-cases s.form.form_error) [
        | inl shown ↦ inl shown
        | inr (m, e) ↦ inr (v.one_error (rw e refl))
      ],
    )

-- A save that ends frees the form for the next one. Unless it was resolved the user sees why: some
-- field has an error, or the fallback text is shown.
pub settle_lem :
    (s : FormErrors) (o : Outcome)
    → let r = settle o s in
      (r.busy ≡ false)
      × (r.saving ≡ false)
      × ((o ≡ resolved) ⊎ (r.errors ≢ []) ⊎ (r.form_error ≡ some s.fallback))
unfolding settle
settle_lem s resolved = (refl, refl, inl refl)
settle_lem s (api_error []) = (refl, refl, inr (inr refl))
settle_lem s (api_error (f ∷ fs)) = (refl, refl, inr (inl (λ e. cc)))
settle_lem s other_error = (refl, refl, inr (inr refl))
