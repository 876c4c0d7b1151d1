-- ===== src/Views/Bar.antt =====
-- The bar of frontend/src/components/HealthchecksPanel.tsx: sorted by how bad a state is.
use mathlib.Core.Path.{ap₂}
use tether_ddns.Prelude.{
  ℕ, zero, suc, ◌+◌, ◌<◌, ◌≤◌, ◌≡◌, refl, sym, ap, ◌∙◌, Bool, false, Option, List, [], ◌∷◌, ◌++◌,
  map, keep, leb, nat_beq, arith, Bool-cases, inl, inr, if◌then◌else◌,
}
use tether_ddns.Utils.Checks.{
  CheckDisplay, down, grace, up, paused, new, gone, display_beq, check_display_status,
  project_unknown,
}
use tether_ddns.Types.{HealthcheckRef, ProjectRuntime}
use tether_ddns.Views.Checks.{bar_rank, Item, items_of, insert_item, sort_items, segments, bar}

abbrev pub rank_of : Item → ℕ
rank_of x = bar_rank x.display

-- The ranks never fall, from `low` on.
abbrev pub Rising : ℕ → List Item → Type 0
Rising low [] = Unit
Rising low (x ∷ xs) = (low ≤ rank_of x) × Rising (rank_of x) xs

insert_item-Rising :
    (low : ℕ) (x : Item) (ys : List Item)
    → low ≤ rank_of x
    → Rising low ys
    → Rising low (insert_item x ys)
insert_item-Rising low x [] h r = (h, tt)
insert_item-Rising low x (y ∷ ys) h (hy, r) = elim (Bool-cases (leb (rank_of x) (rank_of y))) [
  | inl before ↦ rw before (h, (ground (arith, before), r))
  | inr after ↦ rw after (hy, insert_item-Rising (rank_of y) x ys (ground (arith, after)) r)
]

sort_items-Rising : (xs : List Item) → Rising 0 (sort_items xs)
sort_items-Rising [] = tt
sort_items-Rising (x ∷ xs) =
    insert_item-Rising 0 x (sort_items xs) (omega arith) (sort_items-Rising xs)

-- The items of one rank, in their order.
abbrev pub of_rank : ℕ → List Item → List Item
of_rank r = keep (λ x. nat_beq (rank_of x) r)

insert_item-of_rank :
    (r : ℕ) (x : Item) (ys : List Item) → of_rank r (insert_item x ys) ≡ of_rank r (x ∷ ys)
insert_item-of_rank r x [] = refl
insert_item-of_rank r x (y ∷ ys) = elim (Bool-cases (leb (rank_of x) (rank_of y))) [
  | inl before ↦ rw before refl
  | inr after ↦ rw after (ground (arith, insert_item-of_rank r x ys, after))
]

sort_items-of_rank : (r : ℕ) (xs : List Item) → of_rank r (sort_items xs) ≡ of_rank r xs
sort_items-of_rank r [] = refl
sort_items-of_rank r (x ∷ xs) =
    insert_item-of_rank r x (sort_items xs) ∙ ground (arith, sort_items-of_rank r xs)

-- The items of one state, in their order.
abbrev pub in_state : CheckDisplay → List Item → List Item
in_state d = keep (λ x. display_beq x.display d)

above-of_rank : (r low : ℕ) (xs : List Item) → r < low → Rising low xs → of_rank r xs ≡ []
above-of_rank r low [] h rising = refl
above-of_rank r low (x ∷ xs) h (hx, rising) =
    ground (arith, above-of_rank r (rank_of x) xs (omega arith) rising)

-- The items of `n` ranks from `r` on, rank by rank.
abbrev by_rank : ℕ → ℕ → List Item → List Item
by_rank zero r xs = []
by_rank (suc n) r xs = of_rank r xs ++ by_rank n (suc r) xs

by_rank-below :
    (n r : ℕ) (x : Item) (xs : List Item) → rank_of x < r → by_rank n r (x ∷ xs) ≡ by_rank n r xs
by_rank-below zero r x xs h = refl
by_rank-below (suc n) r x xs h =
    let other : nat_beq (rank_of x) r ≡ false = ground arith in
    rw other (ap (λ ys. of_rank r xs ++ ys) (by_rank-below n (suc r) x xs (omega arith)))

rank-le : (d : CheckDisplay) → bar_rank d ≤ 6
rank-le d = ground arith

-- Sorted items are those of the ranks, rank by rank.
by_rank-Rising : (n r : ℕ) (xs : List Item) → Rising r xs → 7 ≤ r + n → by_rank n r xs ≡ xs
by_rank-Rising zero r [] rising h = refl
by_rank-Rising zero r (x ∷ xs) (hx, _) h = ground (arith, rank-le x.display)
by_rank-Rising (suc n) r [] rising h = by_rank-Rising n (suc r) [] tt (omega arith)
by_rank-Rising (suc n) r (x ∷ xs) (hx, rising) h = elim (Bool-cases (nat_beq (rank_of x) r)) [
  | inl same ↦
      let here : rank_of x ≡ r = ground arith in
      let more : Rising r xs = rw here at rising in
      rw (same, by_rank-below n (suc r) x xs (omega arith))
        (ap (λ ys. x ∷ ys) (by_rank-Rising (suc n) r xs more h))
  | inr other ↦
      rw (other, above-of_rank r (rank_of x) xs (ground arith) rising)
        (by_rank-Rising n (suc r) (x ∷ xs) (ground arith, rising) (omega arith))
]

by_rank-sort : (n r : ℕ) (xs : List Item) → by_rank n r (sort_items xs) ≡ by_rank n r xs
by_rank-sort zero r xs = refl
by_rank-sort (suc n) r xs =
    ap₂ (λ ys zs. ys ++ zs) (sort_items-of_rank r xs) (by_rank-sort n (suc r) xs)

keep_same : (p q : Item → Bool) (xs : List Item) → ((x : Item) → p x ≡ q x) → keep p xs ≡ keep q xs
keep_same p q [] h = refl
keep_same p q (x ∷ xs) h = rw (h x, keep_same p q xs h) refl

abbrev pub concat_all : List (List Item) → List Item
concat_all [] = []
concat_all (xs ∷ xss) = xs ++ concat_all xss

-- The items of each state that the bar shows, down first and gone last.
abbrev pub worst_first : List Item → List Item
worst_first xs =
    concat_all (map (λ d. in_state d xs) (down ∷ grace ∷ up ∷ paused ∷ new ∷ gone ∷ []))

no_unknown :
    (rt : Option ProjectRuntime) (refs : List HealthcheckRef)
    → project_unknown rt ≡ false
    → of_rank 0 (items_of rt refs) ≡ []
unfolding items_of check_display_status project_unknown
no_unknown rt [] h = refl
no_unknown rt (x ∷ refs) h = ground (arith, no_unknown rt refs h)

same_states : (xs : List Item) → by_rank 6 1 xs ≡ worst_first xs
same_states xs =
    rw
      (
        keep_same (λ x. nat_beq (rank_of x) 1) (λ x. display_beq x.display down) xs
            (λ x. ground arith),
        keep_same (λ x. nat_beq (rank_of x) 2) (λ x. display_beq x.display grace) xs
            (λ x. ground arith),
        keep_same (λ x. nat_beq (rank_of x) 3) (λ x. display_beq x.display up) xs
            (λ x. ground arith),
        keep_same (λ x. nat_beq (rank_of x) 4) (λ x. display_beq x.display paused) xs
            (λ x. ground arith),
        keep_same (λ x. nat_beq (rank_of x) 5) (λ x. display_beq x.display new) xs
            (λ x. ground arith),
        keep_same (λ x. nat_beq (rank_of x) 6) (λ x. display_beq x.display gone) xs
            (λ x. ground arith),
      )
      refl

-- The bar of a project whose state is known shows its checks that are down, then those in grace, up,
-- paused, new and gone, those of each state in the project's order; the bar of a project whose state is
-- not known shows none.
pub segments_lem :
    (rt : Option ProjectRuntime) (refs : List HealthcheckRef)
    → bar rt refs ≡ (if project_unknown rt then [] else worst_first (items_of rt refs))
unfolding bar segments
segments_lem rt refs = elim (Bool-cases (project_unknown rt)) [
  | inl u ↦ rw u refl
  | inr u ↦
      let xs = items_of rt refs in
      rw u (
        sym (by_rank-Rising 7 0 (sort_items xs) (sort_items-Rising xs) (omega arith))
        ∙ by_rank-sort 7 0 xs
        ∙ rw (no_unknown rt refs u) (same_states xs))
]
