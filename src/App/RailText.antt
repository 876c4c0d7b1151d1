-- ===== src/App/RailText.antt =====
-- The texts that `parseInt` reads in frontend/src/App.tsx: the width of the rail as it is stored.
use tether_ddns.Prelude.{◌++◌}
use tether_ddns.Prelude.{
  ℕ, suc, zero, ◌+◌, ◌-◌, ◌*◌, ◌/◌, ◌%◌, ◌≤◌, ◌≡◌, refl, ap, ◌∙◌, Str, Bool, true, false, ◌&&◌,
  Option, none, some, [], ◌∷◌, ltb, leb, nat_beq, ℤ, pos, negsuc, arith, Bool-cases, inl, inr,
  if◌then◌else◌,
}
use tether_ddns.Prelude.Strings.{digits_from, drop_spaces}

abbrev is_digit : ℕ → Bool
is_digit c = leb b'0' c && leb c b'9'

-- The digits that a text begins with, after those that make up `acc`.
abbrev pub read : ℕ → Str → ℕ
read acc [] = acc
read acc (c ∷ cs) = if is_digit c then read (acc * 10 + (c - b'0')) cs else acc

abbrev unsigned : Str → Option ℕ
unsigned [] = none
unsigned (c ∷ cs) = if is_digit c then some (read 0 (c ∷ cs)) else none

abbrev negated : Option ℕ → Option ℤ
negated none = none
negated (some zero) = some (pos 0)
negated (some (suc n)) = some (negsuc n)

abbrev positive : Option ℕ → Option ℤ
positive none = none
positive (some n) = some (pos n)

abbrev signed : Str → Option ℤ
signed [] = none
signed (c ∷ cs) =
    if nat_beq c 45
    then negated (unsigned cs)
    else (if nat_beq c 43 then positive (unsigned cs) else positive (unsigned (c ∷ cs)))

-- `parseInt(w, 10)`, `none` for `NaN`
unfoldable pub parse_int : Str → Option ℤ
parse_int s = signed (drop_spaces s)

digit-is_digit : (n : ℕ) → is_digit (b'0' + n % 10) ≡ true
digit-is_digit n = ground arith

read-digit :
    (acc n : ℕ) (out : Str) → read acc ((b'0' + n % 10) ∷ out) ≡ read (acc * 10 + n % 10) out
read-digit acc n out = rw (digit-is_digit n) (ap (λ k. read k out) (omega arith))

below_ten : (n : ℕ) → ltb n 10 ≡ true → 0 * 10 + n % 10 ≡ n
below_ten n b = ground arith

shrinks : (f n : ℕ) → ltb n 10 ≡ false → n ≤ suc f → n / 10 ≤ f
shrinks f n b h = ground arith

pub digits_from-read :
    (fuel n : ℕ) (out : Str) → n ≤ fuel → read 0 (digits_from fuel n out) ≡ read n out
unfolding digits_from
digits_from-read zero n out h = read-digit 0 n out ∙ ap (λ k. read k out) (omega arith)
digits_from-read (suc f) n out h = elim (Bool-cases (ltb n 10)) [
  | inl b ↦ rw b (read-digit 0 n out ∙ ap (λ k. read k out) (below_ten n b))
  | inr b ↦ rw b (
      digits_from-read f (n / 10) ((b'0' + n % 10) ∷ out) (shrinks f n b h)
      ∙ read-digit (n / 10) n out
      ∙ ap (λ k. read k out) (omega arith))
]

-- What `decimal` writes begins with a digit.
abbrev pub begins_with_digit : Str → Bool
begins_with_digit [] = false
begins_with_digit (c ∷ cs) = is_digit c

pub digits_from-begins :
    (fuel n : ℕ) (out : Str) → begins_with_digit (digits_from fuel n out) ≡ true
unfolding digits_from
digits_from-begins zero n out = digit-is_digit n
digits_from-begins (suc f) n out = elim (Bool-cases (ltb n 10)) [
  | inl b ↦ rw b (digit-is_digit n)
  | inr b ↦ rw b (digits_from-begins f (n / 10) ((b'0' + n % 10) ∷ out))
]

pub digits_from-append :
    (fuel n : ℕ) (out more : Str)
    → digits_from fuel n out ++ more ≡ digits_from fuel n (out ++ more)
unfolding digits_from
digits_from-append zero n out more = refl
digits_from-append (suc f) n out more = elim (Bool-cases (ltb n 10)) [
  | inl b ↦ rw b refl
  | inr b ↦ rw b (digits_from-append f (n / 10) ((b'0' + n % 10) ∷ out) more)
]

pub digit-parse : (s : Str) → begins_with_digit s ≡ true → parse_int s ≡ some (pos (read 0 s))
unfolding parse_int
digit-parse [] h = ground arith
digit-parse (c ∷ cs) h = ground arith
