-- ===== src/Views/Health.antt =====
-- The counts of frontend/src/components/RecordHealthPanel.tsx and frontend/src/views/OverviewView.tsx,
-- and the filter of frontend/src/views/LogsView.tsx.
use tether_ddns.Prelude.{
  ℕ, ◌+◌, ◌-◌, ◌*◌, ◌≤◌, ◌≡◌, inl, inr, refl, String, codes, Bool, true, false, ◌&&◌, ◌||◌, Option,
  none, some, List, [], ◌∷◌, length, keep, find?, count, min, nat_beq, ◌==◌, string_eq, arith,
  if◌then◌else◌, Ratio, Bool-cases,
}
use tether_ddns.Prelude.Strings.{is_inherited}
use tether_ddns.Prelude.Dict.{lookup, insert}
use tether_ddns.Types.{DomainState, DomainConfig, LogEntry}

-- `enabledById`
unfoldable pub enabled_by_id : List DomainConfig → List (String × Bool) → List (String × Bool)
enabled_by_id [] m = m
enabled_by_id (d ∷ ds) m = enabled_by_id ds (insert d.id d.enabled m)

pub data Slot : Type 0 where
  synced pending error paused : Slot
  -- a property that every object inherits, such as `toString`: `s in counts` holds of it
  inherited : Slot

-- The counter that a status belongs to.
abbrev pub slot_of_status : String → Slot
slot_of_status s =
    if s == "synced"
    then synced
    else (if s == "error"
        then error
        else (if s == "paused"
            then paused
            else (if is_inherited (codes s) then inherited else pending)))

abbrev is_off : Option Bool → Bool
is_off (some false) = true
is_off _ = false

unfoldable pub slot_of : List (String × Bool) → DomainState → Slot
slot_of enabled d = if is_off (lookup d.id enabled) then paused else slot_of_status d.status

pub record Counts : Type 0 where
  pub synced : ℕ
  pub pending : ℕ
  pub error : ℕ
  pub paused : ℕ

abbrev add_one : Slot → Counts → Counts
add_one Slot.synced c = record c { synced = c.synced + 1 }
add_one Slot.pending c = record c { pending = c.pending + 1 }
add_one Slot.error c = record c { error = c.error + 1 }
add_one Slot.paused c = record c { paused = c.paused + 1 }
add_one inherited c = c

-- The loop over the domains.
unfoldable pub count_domains : List (String × Bool) → List DomainState → Counts → Counts
count_domains enabled [] c = c
count_domains enabled (d ∷ ds) c = count_domains enabled ds (add_one (slot_of enabled d) c)

abbrev pub no_domains : Counts
no_domains = record { synced = 0; pending = 0; error = 0; paused = 0 }

-- `remain` and `fillPct`: how much of the interval is left, over the interval. The times are in
-- milliseconds, the interval in seconds.
unfoldable pub fill_pct : Option ℕ → ℕ → ℕ → Ratio
fill_pct none interval now = record { num = 0; den = 1 }
fill_pct (some at) interval now =
    if nat_beq interval 0
    then record { num = 0; den = 1 }
    else record { num = min (at - now) (interval * 1000); den = interval * 1000 }

abbrev status_in : String → List DomainState → Option String
status_in id runtime = elim (find? (λ (r : DomainState). r.id == id) runtime) [
  | none ↦ none
  | some r ↦ some r.status
]

abbrev is_status : String → Option String → Bool
is_status s none = false
is_status s (some t) = t == s

-- `synced` and `needsUpdate`
unfoldable pub overview_counts : List DomainConfig → List DomainState → ℕ × ℕ → ℕ × ℕ
overview_counts [] runtime sums = sums
overview_counts (d ∷ ds) runtime (done, wanted) =
    let s = status_in d.id runtime in
    overview_counts ds runtime (
      (if is_status "synced" s then done + 1 else done),
      (if is_status "pending" s || is_status "error" s then wanted + 1 else wanted),
    )

pub data LogLevel : Type 0 where
  all_levels info warning failure : LogLevel

abbrev pub level_name : LogLevel → String
level_name all_levels = "ALL"
level_name info = "INFO"
level_name warning = "WARNING"
level_name failure = "ERROR"

abbrev is_all : LogLevel → Bool
is_all all_levels = true
is_all _ = false

-- The filter of the log. `includes` is the search for the query, without regard to case; no query
-- is `none`.
unfoldable pub shows_line : (String → String → Bool) → LogLevel → Option String → LogEntry → Bool
shows_line includes level query log =
    (is_all level || log.level == level_name level)
    && (elim query [ none ↦ true | some q ↦ includes log.message q ])

unfoldable pub filtered :
    (String → String → Bool) → LogLevel → Option String → List LogEntry → List LogEntry
unfolding shows_line
filtered includes level query logs = keep (shows_line includes level query) logs

abbrev pub slot_beq : Slot → Slot → Bool
slot_beq Slot.synced Slot.synced = true
slot_beq Slot.pending Slot.pending = true
slot_beq Slot.error Slot.error = true
slot_beq Slot.paused Slot.paused = true
slot_beq inherited inherited = true
slot_beq _ _ = false

-- How many domains belong to a counter.
abbrev pub in_slot : List (String × Bool) → Slot → List DomainState → ℕ
in_slot enabled s = count (λ d. slot_beq (slot_of enabled d) s)

count_domains-from :
    (enabled : List (String × Bool)) (ds : List DomainState) (c : Counts)
    → let r = count_domains enabled ds c in
      (r.synced ≡ c.synced + in_slot enabled Slot.synced ds)
      × (r.pending ≡ c.pending + in_slot enabled Slot.pending ds)
      × (r.error ≡ c.error + in_slot enabled Slot.error ds)
      × (r.paused ≡ c.paused + in_slot enabled Slot.paused ds)
      × (r.synced + r.pending + r.error + r.paused + in_slot enabled inherited ds
          ≡ c.synced + c.pending + c.error + c.paused + length ds)
unfolding count_domains
count_domains-from enabled [] c = ground arith
count_domains-from enabled (d ∷ ds) c =
    ground (arith, count_domains-from enabled ds (add_one (slot_of enabled d) c))

-- The four counts of the health panel are the numbers of domains that belong to each of them, and
-- together they are the number of domains: none is left out or counted twice, but for one whose
-- status is called like a property that every object inherits.
pub count_domains_lem :
    (enabled : List (String × Bool)) (ds : List DomainState)
    → let r = count_domains enabled ds no_domains in
      (r.synced ≡ in_slot enabled Slot.synced ds)
      × (r.pending ≡ in_slot enabled Slot.pending ds)
      × (r.error ≡ in_slot enabled Slot.error ds)
      × (r.paused ≡ in_slot enabled Slot.paused ds)
      × (r.synced + r.pending + r.error + r.paused + in_slot enabled inherited ds ≡ length ds)
count_domains_lem enabled ds = ground (arith, count_domains-from enabled ds no_domains)

apart :
    (o : Option String)
    → (is_status "synced" o && (is_status "pending" o || is_status "error" o)) ≡ false
apart none = refl
apart (some t) = elim (Bool-cases (t == "synced")) [
  | inl same ↦ rw ((string_eq.beq_iff t "synced").0 same) refl
  | inr other ↦ rw other refl
]

overview_counts-from :
    (ds : List DomainConfig) (runtime : List DomainState) (a b : ℕ)
    → let (done, wanted) = overview_counts ds runtime (a, b) in done + wanted ≤ a + b + length ds
unfolding overview_counts
overview_counts-from [] runtime a b = omega arith
overview_counts-from (d ∷ ds) runtime a b = ground (
  arith,
  apart (status_in d.id runtime),
  overview_counts-from ds runtime a b,
  overview_counts-from ds runtime (a + 1) b,
  overview_counts-from ds runtime a (b + 1),
)

-- No domain is counted both as synced and as one that needs an update, so the two numbers of the
-- overview together never exceed the number of domains.
pub overview_counts-le :
    (domains : List DomainConfig) (runtime : List DomainState)
    → let (done, wanted) = overview_counts domains runtime (0, 0) in done + wanted ≤ length domains
overview_counts-le domains runtime = omega (arith, overview_counts-from domains runtime 0 0)
