-- ===== src/LiveState/Delay.antt =====
-- The hook `useDelayedFlag` (frontend/src/useDelayedFlag.ts). Its timer fires once its time is up.
use tether_ddns.Prelude.{
  ℕ, ◌+◌, ◌-◌, ◌<◌, ◌≡◌, Bool, true, false, not, Option, none, some, List, [], ◌∷◌, arith, leb,
  if◌then◌else◌,
}

-- `due` is when the running timer fires.
pub record DelayedFlag : Type 0 where
  pub flag : Bool
  pub active : Bool
  pub due : Option ℕ
  pub clock : ℕ

-- A render with a value of `active`, or time that passes.
pub data Event : Type 0 where
  renders : Bool → Event
  passes : ℕ → Event

module _ (delay : ℕ) where
  -- The effect, after the clean-up of the run before.
  unfoldable pub effect : Bool → DelayedFlag → DelayedFlag
  effect true s = record s { active = true; due = some (s.clock + delay) }
  effect false s = record s { active = false; flag = false; due = none }

  abbrev bool_beq : Bool → Bool → Bool
  bool_beq true b = b
  bool_beq false b = not b

  abbrev fire : Option ℕ → DelayedFlag → DelayedFlag
  fire none s = s
  fire (some t) s = if leb t s.clock then record s { flag = true; due = none } else s

  unfoldable pub step : Event → DelayedFlag → DelayedFlag
  unfolding effect
  step (renders active) s = if bool_beq active s.active then s else effect active s
  step (passes n) s = fire s.due (record s { clock = s.clock + n })

  unfoldable pub run : List Event → DelayedFlag → DelayedFlag
  run [] s = s
  run (e ∷ es) s = run es (step e s)

  -- `useState(false)`, and the effect of the first render.
  unfoldable pub mounted : Bool → DelayedFlag
  unfolding effect
  mounted active = effect active (record { flag = false; active = false; due = none; clock = 0 })

-- For how long `active` has been true without a break; `none` where it is not true.
abbrev pub held_step : Event → Option ℕ → Option ℕ
held_step (renders false) held = none
held_step (renders true) none = some 0
held_step (renders true) (some n) = some n
held_step (passes n) none = none
held_step (passes n) (some m) = some (m + n)

abbrev pub held_for : List Event → Option ℕ → Option ℕ
held_for [] held = held
held_for (e ∷ es) held = held_for es (held_step e held)

abbrev pub held_at_first : Bool → Option ℕ
held_at_first true = some 0
held_at_first false = none

abbrev pub long_enough : ℕ → Option ℕ → Bool
long_enough delay none = false
long_enough delay (some m) = leb delay m

module _ (delay : ℕ) where
  -- The state that goes with a time for which `active` has been true.
  abbrev Fits : DelayedFlag → Option ℕ → Type 0
  Fits s none = (s.active ≡ false) × (s.flag ≡ false) × (s.due ≡ none)
  Fits s (some m) =
      (s.active ≡ true)
      × (s.flag ≡ leb delay m)
      × (s.due ≡ (if leb delay m then none else some (s.clock + (delay - m))))

  step-Fits :
      (e : Event) (s : DelayedFlag) (held : Option ℕ)
      → 0 < delay
      → Fits s held
      → Fits (step delay e s) (held_step e held)
  unfolding step
  step-Fits (renders true) s none pos f = ground arith
  step-Fits (renders true) s (some m) pos f = ground arith
  step-Fits (renders false) s none pos f = ground arith
  step-Fits (renders false) s (some m) pos f = ground arith
  step-Fits (passes n) s none pos f = ground arith
  step-Fits (passes n) s (some m) pos f = ground arith

  run-Fits :
      (es : List Event) (s : DelayedFlag) (held : Option ℕ)
      → 0 < delay
      → Fits s held
      → Fits (run delay es s) (held_for es held)
  unfolding run
  run-Fits [] s held pos f = f
  run-Fits (e ∷ es) s held pos f =
      run-Fits es (step delay e s) (held_step e held) pos (step-Fits e s held pos f)

  Fits-flag : (s : DelayedFlag) (held : Option ℕ) → Fits s held → s.flag ≡ long_enough delay held
  Fits-flag s none (_, flag, _) = flag
  Fits-flag s (some m) (_, flag, _) = flag

  -- For a delay that is not zero: the flag is set exactly if `active` has been true without a break
  -- for the delay or longer, whatever renders there were.
  pub flag_lem :
      (active : Bool) (es : List Event)
      → 0 < delay
      → (run delay es (mounted delay active)).flag
        ≡ long_enough delay (held_for es (held_at_first active))
  flag_lem active es pos =
      Fits-flag (run delay es (mounted delay active)) (held_for es (held_at_first active))
        (run-Fits es (mounted delay active) (held_at_first active) pos (at_first active))
    where
      at_first : (active : Bool) → Fits (mounted delay active) (held_at_first active)
      at_first true = unfold mounted in ground arith
      at_first false = unfold mounted in ground arith
