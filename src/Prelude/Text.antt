-- ===== src/Prelude/Text.antt =====
-- Texts that the program builds from templates: the pieces in order, numbers not yet printed.
use mathlib.Core.List.{List, [], ◌∷◌, ◌++◌}
use Prim.Native.Nat.{ℕ}
use Prim.Native.String.{String}
use tether_ddns.Prelude.Keys.{Str}

pub data Piece : Type 0 where
  lit : String → Piece
  num : ℕ → Piece
  -- a text that is computed character by character
  chars : Str → Piece
  -- a quotient, printed as the language prints a number
  quotient : ℕ → ℕ → Piece

abbrev pub Text : Type 0
Text = List Piece

-- `texts.join(sep)`
abbrev pub join : Text → List Text → Text
join sep [] = []
join sep (t ∷ []) = t
join sep (t ∷ u ∷ ts) = t ++ sep ++ join sep (u ∷ ts)
