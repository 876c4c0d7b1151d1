-- ===== src/LiveState/Incidents.antt =====
-- The hook `useIncidents` (frontend/src/useIncidents.ts): each run of its effect asks the server
-- again and cancels the run before it.
use tether_ddns.Prelude.{
  ℕ, ◌+◌, ◌<◌, ◌≡◌, refl, ap, ◌∙◌, Bool, true, false, ◌&&◌, Option, none, some, List, [], ◌∷◌,
  arith, nat_beq, All, if◌then◌else◌,
}
use tether_ddns.Types.{IncidentWindow}

-- `asked` holds the dependencies of the effect's last run, and `current` the number of the request
-- whose run is not cancelled.
pub record Incidents : Type 0 where
  pub data_shown : Option IncidentWindow
  pub asked : Option (ℕ × ℕ)
  pub current : Option ℕ
  pub requests : ℕ

abbrev pub not_asked : Incidents
not_asked = record { data_shown = none; asked = none; current = none; requests = 0 }

abbrev pub same_deps : Option (ℕ × ℕ) → ℕ → ℕ → Bool
same_deps none rev generation = false
same_deps (some (r, g)) rev generation = nat_beq r rev && nat_beq g generation

-- A render: the effect runs if `rev` or `generation` has changed.
unfoldable pub render : ℕ → ℕ → Incidents → Incidents
render rev generation s = if same_deps s.asked rev generation then s else record s {
  asked = some (rev, generation);
  current = some s.requests;
  requests = s.requests + 1;
}

abbrev pub points : Option ℕ → ℕ → Bool
points none i = false
points (some j) i = nat_beq j i

-- A request is answered: with a window, or it fails.
unfoldable pub answered : ℕ → Option IncidentWindow → Incidents → Incidents
answered i answer s = if points s.current i then record s { data_shown = answer } else s

unfoldable pub unmounted : Incidents → Incidents
unmounted s = record s { current = none }

-- The answers to some requests, in the order of their arrival.
unfoldable pub all_answered : List (ℕ × Option IncidentWindow) → Incidents → Incidents
all_answered [] s = s
all_answered ((i, answer) ∷ more) s = all_answered more (answered i answer s)

-- The answer is one to a request before the `n`th.
abbrev pub IsBefore : ℕ → ℕ × Option IncidentWindow → Type 0
IsBefore n a = a.0 < n

old_answers :
    (n : ℕ) (olds : List (ℕ × Option IncidentWindow)) (s : Incidents)
    → s.current ≡ some n
    → All (IsBefore n) olds
    → all_answered olds s ≡ s
unfolding all_answered answered
old_answers n [] s cur h = refl
old_answers n ((i, answer) ∷ olds) s cur (before, h) =
    let skip : points s.current i ≡ false = rw cur (ground arith) in
    rw skip (old_answers n olds s cur h)

asks :
    (rev generation : ℕ) (s : Incidents)
    → same_deps s.asked rev generation ≡ false
    → ((render rev generation s).current ≡ some s.requests)
      × ((render rev generation s).data_shown ≡ s.data_shown)
unfolding render
asks rev generation s new = rw new (refl, refl)

-- After a change of `rev` or `generation` the page shows the answer to the request that the change
-- made, whenever it arrives: the answers to earlier requests, before it or after it and in any
-- order, change nothing.
pub newest_answer_wins :
    (rev generation : ℕ) (answer : Option IncidentWindow)
    (before after : List (ℕ × Option IncidentWindow)) (s : Incidents)
    → same_deps s.asked rev generation ≡ false
    → All (IsBefore s.requests) before
    → All (IsBefore s.requests) after
    → let asked = render rev generation s in
      let waiting = all_answered before asked in
      (waiting.data_shown ≡ s.data_shown)
      × ((all_answered after (answered s.requests answer waiting)).data_shown ≡ answer)
newest_answer_wins rev generation answer before after s new olds lates =
    let asked : Incidents = render rev generation s in
    let (cur, kept) = asks rev generation s new in
    let same : all_answered before asked ≡ asked = old_answers s.requests before asked cur olds in
    let (now_shown, still) = takes s.requests answer asked cur in
    rw same (
      kept,
      ap (λ (t : Incidents). t.data_shown)
            (old_answers s.requests after (answered s.requests answer asked) still lates)
          ∙ now_shown,
    )
  where
    takes :
        (n : ℕ) (answer : Option IncidentWindow) (t : Incidents)
        → t.current ≡ some n
        → ((answered n answer t).data_shown ≡ answer) × ((answered n answer t).current ≡ some n)
    takes n answer t cur =
        let hit : points t.current n ≡ true = rw cur (ground arith) in
        unfold answered in rw hit (refl, cur)
