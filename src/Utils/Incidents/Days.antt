-- ===== src/Utils/Incidents/Days.antt =====
-- The day buckets of frontend/src/utils.ts cut the window into days and lose nothing.
use mathlib.Core.List.{append-nil, append_assoc}
use native.Mathlib.Nat.{add-zero}
use tether_ddns.Prelude.{
  ℕ, zero, suc, ◌+◌, ◌-◌, ◌≤◌, ◌<◌, ◌≡◌, refl, sym, inl, inr, ap, Bool, not, Option, List, [], ◌∷◌,
  ◌++◌, min, ltb, leb, if◌then◌else◌, arith, length, keep, any, Bool-cases,
}
use tether_ddns.Types.{Incident}
use tether_ddns.Utils.Incidents.{
  DaySeverity, healthy, day_degraded, day_outage, DayBucket, Calendar, overlap, with_ongoing,
  is_outage, Tally, no_hits, add_hit, tally_day, day_bucket, buckets_down, bucket_by_day,
}

-- The buckets follow one another without a gap, from `from` to `to`.
abbrev pub Chain : ℕ → ℕ → List DayBucket → Type 0
Chain from to [] = from ≡ to
Chain from to (b ∷ bs) = (b.start ≡ from) × Chain b.end to bs

-- There is a last bucket, and the time lies in it and is where it has been observed to.
abbrev pub InLast : ℕ → List DayBucket → Type 0
InLast now [] = ⊥
InLast now (b ∷ []) = (b.start ≤ now) × (now < b.end) × (b.observed_end ≡ now)
InLast now (b ∷ c ∷ bs) = InLast now (c ∷ bs)

module _ (cal : Calendar) where
  day_bucket-ends :
      (all : List Incident) (now back : ℕ)
      → suc back ≤ cal.day_of now
      → (day_bucket cal all now (suc back)).end ≡ cal.start_of (cal.day_of now - back)
  unfolding day_bucket
  day_bucket-ends all now back h =
      ap cal.start_of (omega (arith, cal.day_of-start_of (cal.day_of now - suc back)))

  day_bucket-start :
      (all : List Incident) (now back : ℕ)
      → (day_bucket cal all now back).start ≡ cal.start_of (cal.day_of now - back)
  unfolding day_bucket
  day_bucket-start all now back = refl

  day_bucket-today :
      (all : List Incident) (now : ℕ)
      → (day_bucket cal all now 0).end ≡ cal.start_of (cal.day_of now + 1)
  unfolding day_bucket
  day_bucket-today all now =
      ap cal.start_of (omega (arith, cal.day_of-start_of (cal.day_of now - 0)))

  buckets_down-Chain :
      (all : List Incident) (now back : ℕ)
      → back ≤ cal.day_of now
      → Chain
          (cal.start_of (cal.day_of now - back))
          (cal.start_of (cal.day_of now + 1))
          (buckets_down cal all now (suc back))
  unfolding buckets_down
  buckets_down-Chain all now zero h = (unfold day_bucket in refl, day_bucket-today all now)
  buckets_down-Chain all now (suc back) h = (
    unfold day_bucket in refl,
    rw (day_bucket-ends all now back h) (buckets_down-Chain all now back (omega arith)),
  )

  length-buckets_down :
      (all : List Incident) (now days : ℕ) → length (buckets_down cal all now days) ≡ days
  unfolding buckets_down
  length-buckets_down all now zero = refl
  length-buckets_down all now (suc back) = ap suc (length-buckets_down all now back)

  day_bucket-observed :
      (all : List Incident) (now : ℕ)
      → now < (day_bucket cal all now 0).end
      → (day_bucket cal all now 0).observed_end ≡ now
  unfolding day_bucket
  day_bucket-observed all now h = ground arith

  buckets_down-InLast :
      (all : List Incident) (now back : ℕ) → InLast now (buckets_down cal all now (suc back))
  unfolding buckets_down
  buckets_down-InLast all now zero =
      let ends = day_bucket-today all now in
      let before : now < (day_bucket cal all now 0).end =
        omega (arith, ends, cal.lt-start_of-day_of now) in
      let zero_back : cal.start_of (cal.day_of now - 0) ≡ cal.start_of (cal.day_of now) =
        ap cal.start_of (omega arith) in
      (
        omega (arith, day_bucket-start all now 0, zero_back, cal.start_of-day_of-le now),
        before,
        day_bucket-observed all now before,
      )
  buckets_down-InLast all now (suc back) = buckets_down-InLast all now back

  -- For a window that begins on a day of the calendar: there is one bucket for each day asked
  -- for. They run on without a gap from the start of the first day to the end of today, and now
  -- lies in the last of them, which is observed up to now.
  pub bucket_by_day-Chain :
      (incidents : List Incident) (ongoing : Option Incident) (now back : ℕ)
      → back ≤ cal.day_of now
      → let buckets = bucket_by_day cal incidents ongoing now (suc back) in
        (length buckets ≡ suc back)
        × Chain (cal.start_of (cal.day_of now - back)) (cal.start_of (cal.day_of now + 1)) buckets
        × InLast now buckets
  unfolding bucket_by_day
  bucket_by_day-Chain incidents ongoing now back h =
      let all = with_ongoing incidents ongoing in
      (
        length-buckets_down all now (suc back),
        buckets_down-Chain all now back h,
        buckets_down-InLast all now back,
      )

-- The time in `from .. to` under incidents of one kind.
abbrev pub total_overlap : (Incident → Bool) → ℕ → ℕ → ℕ → List Incident → ℕ
total_overlap p from to now [] = 0
total_overlap p from to now (inc ∷ all) =
    (if p inc then overlap inc from to now else 0) + total_overlap p from to now all

abbrev pub outage_test : Incident → Bool
outage_test inc = is_outage inc.severity

abbrev pub degraded_test : Incident → Bool
degraded_test inc = not (is_outage inc.severity)

tally_day_lem :
    (from to now : ℕ) (all : List Incident) (t : Tally)
    → let r = tally_day from to now all t in
      (r.offline ≡ t.offline + total_overlap outage_test from to now all)
      × (r.degraded_time ≡ t.degraded_time + total_overlap degraded_test from to now all)
      × (r.hits ≡ t.hits ++ keep (λ inc. ltb 0 (overlap inc from to now)) all)
unfolding tally_day
tally_day_lem from to now [] t = (omega arith, omega arith, sym (append-nil t.hits))
tally_day_lem from to now (inc ∷ all) t = elim (Bool-cases (leb (overlap inc from to now) 0)) [
  | inl outside ↦ let ih = tally_day_lem from to now all t in ground (arith, ih)
  | inr inside ↦
      let ih = tally_day_lem from to now all (add_hit inc (overlap inc from to now) t) in
      ground (
        arith,
        ih,
        append_assoc t.hits (inc ∷ []) (keep (λ inc. ltb 0 (overlap inc from to now)) all),
      )
]

tally_fresh :
    (from to now : ℕ) (all : List Incident)
    → let r = tally_day from to now all no_hits in
      (r.offline ≡ total_overlap outage_test from to now all)
      × (r.degraded_time ≡ total_overlap degraded_test from to now all)
      × (r.hits ≡ keep (λ inc. ltb 0 (overlap inc from to now)) all)
tally_fresh from to now all =
    let (off, deg, hits) = tally_day_lem from to now all no_hits in
    (omega (arith, off), omega (arith, deg), hits)

overlap-add :
    (inc : Incident) (from mid to now : ℕ)
    → from ≤ mid
    → mid ≤ to
    → overlap inc from mid now + overlap inc mid to now ≡ overlap inc from to now
unfolding overlap
overlap-add inc from mid to now h k = omega arith

total_overlap-add :
    (p : Incident → Bool) (from mid to now : ℕ) (all : List Incident)
    → from ≤ mid
    → mid ≤ to
    → total_overlap p from mid now all + total_overlap p mid to now all
      ≡ total_overlap p from to now all
total_overlap-add p from mid to now [] h k = refl
total_overlap-add p from mid to now (inc ∷ all) h k =
    ground (arith, overlap-add inc from mid to now h k, total_overlap-add p from mid to now all h k)

-- The worst severity among the incidents of a day, told from the incidents alone.
abbrev pub worst_of : List Incident → DaySeverity
worst_of hits =
    if any outage_test hits
    then day_outage
    else (if ltb 0 (length hits) then day_degraded else healthy)

module _ (from to now : ℕ) where
  abbrev in_day : Incident → Bool
  in_day inc = ltb 0 (overlap inc from to now)

  any_outage :
      (all : List Incident)
      → ltb 0 (total_overlap outage_test from to now all) ≡ any outage_test (keep in_day all)
  any_outage [] = refl
  any_outage (inc ∷ all) = ground (arith, any_outage all)

  any_degraded :
      (all : List Incident)
      → ltb 0 (total_overlap degraded_test from to now all) ≡ any degraded_test (keep in_day all)
  any_degraded [] = refl
  any_degraded (inc ∷ all) = ground (arith, any_degraded all)

worst_choice :
    (hits : List Incident)
    → (if any outage_test hits
        then day_outage
        else (if any degraded_test hits then day_degraded else healthy))
      ≡ worst_of hits
worst_choice [] = refl
worst_choice (inc ∷ hits) = ground arith

-- The sum of one of the times of the buckets.
abbrev pub sum_of : (DayBucket → ℕ) → List DayBucket → ℕ
sum_of time [] = 0
sum_of time (b ∷ bs) = time b + sum_of time bs

module _ (cal : Calendar) (all : List Incident) (now : ℕ) where
  -- A bucket holds exactly the incidents that overlap its day, in their order; its two times are
  -- theirs within the day, by severity; and it is as bad as the worst of them.
  pub day_bucket_lem :
      (back : ℕ)
      → let b = day_bucket cal all now back in
        (b.incidents ≡ keep (λ inc. ltb 0 (overlap inc b.start b.end now)) all)
        × (b.offline ≡ total_overlap outage_test b.start b.end now all)
        × (b.degraded_time ≡ total_overlap degraded_test b.start b.end now all)
        × (b.worst ≡ worst_of b.incidents)
        × (b.observed_end ≡ min now b.end)
  unfolding day_bucket
  day_bucket_lem back =
      let from = cal.start_of (cal.day_of now - back) in
      let to = cal.start_of (cal.day_of from + 1) in
      let (off, deg, hits) = tally_fresh from to now all in
      (
        hits,
        off,
        deg,
        rw (off, deg, hits, any_outage from to now all, any_degraded from to now all)
            (worst_choice (keep (in_day from to now) all)),
        refl,
      )

  day_grows : (d : ℕ) → cal.start_of d ≤ cal.start_of (d + 1)
  day_grows d =
      let h = cal.lt-start_of-day_of (cal.start_of d) in
      let e = ap (λ k. cal.start_of (k + 1)) (cal.day_of-start_of d) in omega (arith, h, e)

  days_grow : (d k : ℕ) → cal.start_of d ≤ cal.start_of (d + k)
  days_grow d zero = rw add-zero (omega arith)
  days_grow d (suc k) =
      let e : d + suc k ≡ d + k + 1 = omega arith in
      rw e (omega (arith, days_grow d k, day_grows (d + k)))

  start_mono : (d e : ℕ) → d ≤ e → cal.start_of d ≤ cal.start_of e
  start_mono d e h = let far : d + (e - d) ≡ e = omega arith in rw far at (days_grow d (e - d))

  sum_down :
      (p : Incident → Bool) (time : DayBucket → ℕ)
      → ((back : ℕ)
          → let b = day_bucket cal all now back in time b ≡ total_overlap p b.start b.end now all)
      → (back : ℕ) → back ≤ cal.day_of now
      → sum_of time (buckets_down cal all now (suc back))
        ≡ total_overlap p
            (cal.start_of (cal.day_of now - back))
            (cal.start_of (cal.day_of now + 1))
            now
            all
  unfolding buckets_down
  sum_down p time each zero h =
      let b = day_bucket cal all now 0 in
      omega (
        arith,
        each 0,
        ap (λ e. total_overlap p b.start e now all) (day_bucket-today cal all now),
        ap (λ s. total_overlap p s (cal.start_of (cal.day_of now + 1)) now all)
            (day_bucket-start cal all now 0),
      )
  sum_down p time each (suc back) h =
      let b = day_bucket cal all now (suc back) in
      let first = cal.start_of (cal.day_of now - suc back) in
      let second = cal.start_of (cal.day_of now - back) in
      let last = cal.start_of (cal.day_of now + 1) in
      omega (
        arith,
        each (suc back),
        ap (λ e. total_overlap p b.start e now all) (day_bucket-ends cal all now back h),
        ap (λ s. total_overlap p s second now all) (day_bucket-start cal all now (suc back)),
        total_overlap-add p first second last now all (start_mono _ _ (omega arith))
            (start_mono _ _ (omega arith)),
        sum_down p time each back (omega arith),
      )

-- For a window that begins on a day of the calendar: the outage times of all buckets together are
-- the outage time between the start of the first day and the end of today, and so for the
-- degraded times. Nothing is counted twice or lost between the days.
pub bucket_by_day-conserves :
    (cal : Calendar) (incidents : List Incident) (ongoing : Option Incident) (now back : ℕ)
    → back ≤ cal.day_of now
    → let buckets = bucket_by_day cal incidents ongoing now (suc back) in
      let all = with_ongoing incidents ongoing in
      let first = cal.start_of (cal.day_of now - back) in
      let last = cal.start_of (cal.day_of now + 1) in
      (sum_of (λ b. b.offline) buckets ≡ total_overlap outage_test first last now all)
      × (sum_of (λ b. b.degraded_time) buckets ≡ total_overlap degraded_test first last now all)
unfolding bucket_by_day
bucket_by_day-conserves cal incidents ongoing now back h =
    let all = with_ongoing incidents ongoing in
    (
      sum_down cal all now outage_test (λ b. b.offline) (λ k. (day_bucket_lem cal all now k).1) back
          h,
      sum_down cal all now degraded_test (λ b. b.degraded_time)
          (λ k. (day_bucket_lem cal all now k).2) back h,
    )
