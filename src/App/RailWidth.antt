-- ===== src/App/RailWidth.antt =====
-- The width of the rail: dragged in frontend/src/layout/Rail.tsx, kept under 'tether-rail-width', and
-- restored in frontend/src/App.tsx. A position of the pointer is its whole part, rounded down, and the
-- digits behind the point as the language writes them, none for a whole position.
use tether_ddns.Prelude.Text.{chars}
use tether_ddns.Prelude.{◌++◌}
use tether_ddns.Prelude.{
  ℕ, Str, Bool, true, false, Option, none, some, List, [], ◌∷◌, ltb, ℤ, pos, negsuc, if◌then◌else◌,
}
use tether_ddns.Prelude.Strings.{decimal}
use tether_ddns.Prelude.Text.{Text, lit}
use tether_ddns.App.RailText.{parse_int}

abbrev rail_min : ℕ
rail_min = 190

abbrev rail_max : ℕ
rail_max = 380

-- A position of the pointer.
pub record Position : Type 0 where
  pub whole : ℤ
  pub fraction : Str

-- A width that is not negative.
pub record Width : Type 0 where
  pub px : ℕ
  pub digits : Str

abbrev pub whole_width : ℕ → Width
whole_width n = record { px = n; digits = [] }

-- `Math.min(RAIL_MAX, Math.max(RAIL_MIN, x))`
abbrev clamp_from : ℤ → Str → Width
clamp_from (negsuc n) ds = whole_width rail_min
clamp_from (pos n) ds =
    if ltb n rail_min
    then whole_width rail_min
    else (if ltb n rail_max then record { px = n; digits = ds } else whole_width rail_max)

unfoldable pub clamp_rail : Position → Width
clamp_rail x = clamp_from x.whole x.fraction

-- `String(w)`
abbrev pub width_text : Width → Str
width_text w = decimal w.px ++ (elim w.digits [ [] ↦ [] | d ∷ ds ↦ b'.' ∷ d ∷ ds ])

-- What a drag has done: the last width, which the page has, and what is in `localStorage`.
pub record Drag : Type 0 where
  pub dragging : Bool
  pub last_width : Option Width
  pub shown : Option Text
  pub stored : Option Str

abbrev pub in_px : Width → Text
in_px w = chars (width_text w) ∷ lit "px" ∷ []

-- `startResize`: a collapsed rail is not dragged.
unfoldable pub start_resize : Bool → Drag → Drag
start_resize collapsed d = if collapsed then d else record d { dragging = true; last_width = none }

unfoldable pub move : Position → Drag → Drag
unfolding clamp_rail
move x d =
    if d.dragging
    then record d { last_width = some (clamp_rail x); shown = some (in_px (clamp_rail x)) }
    else d

-- The flag says whether `setItem` throws.
abbrev store : Bool → Option Width → Option Str → Option Str
store throws none stored = stored
store throws (some w) stored = if throws then stored else some (width_text w)

unfoldable pub up : Bool → Drag → Drag
up throws d =
    if d.dragging
    then record d { dragging = false; stored = store throws d.last_width d.stored }
    else d

unfoldable pub moves : List Position → Drag → Drag
unfolding move
moves [] d = d
moves (x ∷ xs) d = moves xs (move x d)

-- A whole drag.
unfoldable pub drag : Bool → Bool → List Position → Drag → Drag
unfolding start_resize moves up
drag collapsed throws xs d = up throws (moves xs (start_resize collapsed d))

abbrev restored_text : Option ℤ → Text
restored_text none = lit "NaNpx" ∷ []
restored_text (some n) = in_px (clamp_rail (record { whole = n; fraction = [] }))

-- The effect that restores the width: what it sets, if it sets anything.
unfoldable pub restore_width : Option Str → Option Text
unfolding parse_int clamp_rail
restore_width none = none
restore_width (some []) = none
restore_width (some (c ∷ cs)) = some (restored_text (parse_int (c ∷ cs)))

-- The last of some positions.
abbrev pub last_of : Position → List Position → Position
last_of x [] = x
last_of x (y ∷ ys) = last_of y ys
