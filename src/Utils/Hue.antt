-- ===== src/Utils/Hue.antt =====
-- The colour of a provider (frontend/src/utils.ts). A 32-bit integer is its bit pattern.
use tether_ddns.Prelude.{
  ℕ, ◌+◌, ◌-◌, ◌*◌, ◌%◌, ◌<◌, ◌≡◌, refl, ap, [], ◌∷◌, arith, ltb, if◌then◌else◌, Str,
}
use tether_ddns.Prelude.Text.{Text, lit, num}

-- One round of the loop: `(hash * 31 + key.charCodeAt(i)) | 0`.
abbrev pub hash_round : ℕ → ℕ → ℕ
hash_round hash c = (hash * 31 + c) % 4294967296

unfoldable pub hash_from : ℕ → Str → ℕ
hash_from hash [] = hash
hash_from hash (c ∷ cs) = hash_from (hash_round hash c) cs

-- `Math.abs` of the integer that a bit pattern stands for.
abbrev pub abs_32 : ℕ → ℕ
abs_32 h = if ltb h 2147483648 then h else 4294967296 - h

unfoldable pub derive_hue : Str → ℕ
derive_hue key = abs_32 (hash_from 0 key) % 360

unfoldable pub provider_color : Str → Text
provider_color key = lit "hsl(" ∷ num (derive_hue key) ∷ lit " 65% 55%)" ∷ []

-- The polynomial that the loop computes, with no wrap-around.
abbrev pub horner : ℕ → Str → ℕ
horner hash [] = hash
horner hash (c ∷ cs) = horner (hash * 31 + c) cs

horner_mod : (hash : ℕ) (cs : Str) → hash_from (hash % 4294967296) cs ≡ horner hash cs % 4294967296
unfolding hash_from
horner_mod hash [] = refl
horner_mod hash (c ∷ cs) = rw (step hash c) (horner_mod (hash * 31 + c) cs)
  where
    step : (h d : ℕ) → hash_round (h % 4294967296) d ≡ (h * 31 + d) % 4294967296
    step h d = omega arith

-- The hue is a hue, and it is that of the exact polynomial in 31, read as a signed 32-bit integer:
-- wrapping in every round makes no difference to wrapping once at the end.
pub derive_hue_lem :
    (key : Str)
    → (derive_hue key < 360) × (derive_hue key ≡ abs_32 (horner 0 key % 4294967296) % 360)
unfolding derive_hue
derive_hue_lem key = (omega arith, ap (λ h. abs_32 h % 360) (horner_mod 0 key))
