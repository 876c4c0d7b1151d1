-- ===== src/App/OneModal.antt =====
-- At most one modal of frontend/src/App.tsx is open at a time, and what an answer that comes late does to
-- the one that is open.
use tether_ddns.Prelude.{◌⊎◌}
use mathlib.Core.Path.{subst}
use tether_ddns.Prelude.{sym, ◌∙◌}
use tether_ddns.Prelude.{
  ℕ, ◌≤◌, ◌≡◌, inl, inr, refl, String, true, false, Option, none, some, List, [], ◌∷◌, arith,
}
use tether_ddns.Utils.Incidents.{DayBucket}
use tether_ddns.Forms.{DomainFormValue}
use tether_ddns.App.{App, domain, first_state, any_modal_open, selected_day, push_toast}
use tether_ddns.App.Deletes.{find_domain}
use tether_ddns.App.Saves.{edit_domain, domain_saved}
use tether_ddns.App.Modals.{
  Desk, DeskEvent, edits_domain, closes, saves_domain, domain_answers, close, step, run, first_desk,
}
use tether_ddns.App.ModalMoves.{
  forms_open, has, ClosesOnly, OpensOne, Picks, Moves, open_count, step-Moves,
}

-- The day is among none of those.
abbrev pub Absent : ℕ → List (List DayBucket) → Type 0
Absent start [] = Unit
Absent start (b ∷ bs) = (has b start ≡ false) × Absent start bs

-- Once the day is gone, it does not come back.
abbrev pub Leaves : ℕ → List (List DayBucket) → Type 0
Leaves start [] = Unit
Leaves start (b ∷ bs) = (has b start ≡ false → Absent start bs) × Leaves start bs

-- No day that is shown comes back after it has gone, as is so while the time does not go back and the time
-- zone stays.
abbrev pub NeverBack : List (List DayBucket) → Type 0
NeverBack [] = Unit
NeverBack (b ∷ bs) = ((start : ℕ) → has b start ≡ true → Leaves start bs) × NeverBack bs

-- At most one form is open; if a day is picked, no form is open and the day leaves for good, or it is gone.
record IsFree (bs : List (List DayBucket)) (s : App) : Type 0 where
  few : forms_open s ≤ 1
  picked :
      (start : ℕ)
      → s.selected_day_start ≡ some start
      → ((forms_open s ≡ 0) × Leaves start bs) ⊎ Absent start bs

module _ (b : List DayBucket) (bs : List (List DayBucket)) where
  day_not_shown :
      (s : App) (start : ℕ)
      → any_modal_open b s ≡ false
      → s.selected_day_start ≡ some start
      → has b start ≡ false
  unfolding any_modal_open selected_day
  day_not_shown s start h e = ground arith

  closes-IsFree : (s t : App) → ClosesOnly s t → IsFree (b ∷ bs) s → IsFree bs t
  closes-IsFree s t c f = record {
    few = omega (arith, c.fewer, f.few);
    picked = λ start e. elim c.day [
      | inr gone ↦ ground arith
      | inl same ↦ elim (f.picked start (sym same ∙ e)) [
        | inl (zero_open, leaves) ↦ inl (omega (arith, c.fewer, zero_open), leaves.1)
        | inr absent ↦ inr absent.1
      ]
    ];
  }

  opens-IsFree : (s t : App) → OpensOne b s t → IsFree (b ∷ bs) s → IsFree bs t
  opens-IsFree s t c f = record {
    few = c.one;
    picked = λ start e. elim (f.picked start (sym c.day ∙ e)) [
      | inl (zero_open, leaves) ↦ inr (leaves.0 (day_not_shown s start c.free (sym c.day ∙ e)))
      | inr absent ↦ inr absent.1
    ];
  }

  some-inj : (m n : ℕ) → some m ≡ some n → m ≡ n
  some-inj m n e = ground arith

  picked_day-IsFree : (s t : App) → Picks b s t → NeverBack (b ∷ bs) → IsFree bs t
  picked_day-IsFree s t c never = record {
    few = omega (arith, c.none_open);
    picked = λ start e.
        let same : c.start ≡ start = some-inj c.start start (sym c.day ∙ e) in
        inl (c.none_open, subst (λ (k : ℕ). Leaves k bs) same (never.0 c.start c.shown));
  }

  moved-IsFree : (s t : App) → Moves b s t → NeverBack (b ∷ bs) → IsFree (b ∷ bs) s → IsFree bs t
  moved-IsFree s t (inl c) never f = closes-IsFree s t c f
  moved-IsFree s t (inr (inl c)) never f = opens-IsFree s t c f
  moved-IsFree s t (inr (inr c)) never f = picked_day-IsFree s t c never

-- The days of the renders that some events meet, and of a last render.
abbrev pub days_of : List (List DayBucket × DeskEvent) → List DayBucket → List (List DayBucket)
days_of [] last = last ∷ []
days_of ((b, e) ∷ es) last = b ∷ days_of es last

module _ (host_in : String → Option String) where
  run-IsFree :
      (es : List (List DayBucket × DeskEvent)) (last : List DayBucket) (d : Desk)
      → NeverBack (days_of es last)
      → IsFree (days_of es last) d.session.app
      → IsFree (last ∷ []) (run host_in es d).session.app
  unfolding run
  run-IsFree [] last d never f = f
  run-IsFree ((b, e) ∷ es) last d never f =
      let t = step host_in b e d in
      run-IsFree es last t never.1 (
        moved-IsFree b (days_of es last) d.session.app t.session.app (step-Moves host_in b e d)
          never f)

  first-IsFree :
      (theme collapsed : Option String) (bs : List (List DayBucket))
      → IsFree bs (first_state theme collapsed)
  unfolding first_state
  first-IsFree theme collapsed bs = record { few = omega arith; picked = λ start e. ground arith }

  -- One look at the last days tells whether the picked day is open.
  count_at :
      (last : List DayBucket) (s : App) (o : Option ℕ)
      → s.selected_day_start ≡ o
      → IsFree (last ∷ []) s
      → open_count host_in last s ≤ 1
  unfolding selected_day
  count_at last s none e f = rw e (omega (arith, f.few))
  count_at last s (some start) e f = elim (f.picked start e) [
    | inl (zero_open, leaves) ↦ ground arith
    | inr absent ↦ rw (e, absent.0) (omega (arith, f.few))
  ]

  -- However the user clicks and the server answers, and whatever the days are at each render, as long as no
  -- day that is shown comes back after it has gone: at most one modal is open at a time.
  pub one_modal :
      (theme collapsed : Option String) (es : List (List DayBucket × DeskEvent))
      (last : List DayBucket)
      → NeverBack (days_of es last)
      → open_count host_in last
          (run host_in es (first_desk host_in last theme collapsed)).session.app
        ≤ 1
  one_modal theme collapsed es last never =
      let d = run host_in es (first_desk host_in last theme collapsed) in
      count_at last d.session.app d.session.app.selected_day_start refl (
        run-IsFree es last (first_desk host_in last theme collapsed) never
          (first-IsFree theme collapsed (days_of es last)))

module _ (host_in : String → Option String) (buckets : List DayBucket) where
  closed_free :
      (s : App)
      → s.domain_modal_open ≡ true
      → open_count host_in buckets s ≤ 1
      → any_modal_open buckets (close domain s) ≡ false
  unfolding any_modal_open selected_day
  closed_free s o c = ground arith

  -- While the save of a domain awaits its answer, its modal can be closed and opened again for another
  -- domain; the answer, when it comes, closes the modal for that other domain.
  pub late_answer_closes :
      (v : DomainFormValue) (id toast : String) (d : Desk)
      → d.session.app.domain_modal_open ≡ true
      → open_count host_in buckets d.session.app ≤ 1
      → d.domain_saving ≡ none
      → let before =
          run host_in
            ((buckets, saves_domain v) ∷ (buckets, closes domain) ∷ (buckets, edits_domain id) ∷ [])
            d in
        let after = step host_in buckets (domain_answers true toast) before in
        (before.session.app.domain_modal_open ≡ true)
        × (before.session.app.editing_domain ≡ find_domain id d.session.app)
        × (after.session.app.domain_modal_open ≡ false)
  unfolding run step any_modal_open selected_day edit_domain domain_saved push_toast
  late_answer_closes v id toast d o c n =
      rw (o, n, closed_free d.session.app o c) (refl, refl, refl)
