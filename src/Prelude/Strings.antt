-- ===== src/Prelude/Strings.antt =====
-- Operations of JavaScript strings and objects, on texts as lists of code units.
use Prim.Native.Nat.{ℕ, zero, suc, ◌+◌, ◌/◌, ◌%◌}
use mathlib.Core.Bool.{Bool, true, false, ◌&&◌, ◌||◌}
use mathlib.Core.List.{List, [], ◌∷◌, ◌++◌, reverse}
use tether_ddns.Prelude.Tests.{nat_beq, ltb, leb, if◌then◌else◌}
use tether_ddns.Prelude.Lists.{any}
use tether_ddns.Prelude.Keys.{Str, codes, str_beq, str_eq_code}
use tether_ddns.Prelude.Dict.{insert}

-- `s.startsWith(p)`
abbrev pub starts_with : Str → Str → Bool
starts_with s [] = true
starts_with [] (p ∷ ps) = false
starts_with (c ∷ cs) (p ∷ ps) = nat_beq c p && starts_with cs ps

abbrev pub dot : ℕ
dot = b'.'

-- `s.split('.')[0]`
abbrev pub before_dot : Str → Str
before_dot [] = []
before_dot (c ∷ cs) = let rest = before_dot cs in if nat_beq c dot then [] else c ∷ rest

-- `parts.join('.')`
abbrev pub join_dots : List Str → Str
join_dots [] = []
join_dots (p ∷ []) = p
join_dots (p ∷ q ∷ ps) = p ++ dot ∷ join_dots (q ∷ ps)

-- `String(n)`: the digits of a number, found from the last one. The fuel is the number itself.
unfoldable pub digits_from : ℕ → ℕ → Str → Str
digits_from zero n out = (b'0' + n % 10) ∷ out
digits_from (suc fuel) n out =
    let out' = (b'0' + n % 10) ∷ out in
    let more = digits_from fuel (n / 10) out' in if ltb n 10 then out' else more

abbrev pub decimal : ℕ → Str
decimal n = digits_from n n []

-- The names that every object has from `Object.prototype`.
abbrev pub inherited_names : List Str
inherited_names =
    codes "constructor"
    ∷ codes "toString"
    ∷ codes "toLocaleString"
    ∷ codes "valueOf"
    ∷ codes "hasOwnProperty"
    ∷ codes "isPrototypeOf"
    ∷ codes "propertyIsEnumerable"
    ∷ codes "__proto__"
    ∷ codes "__defineGetter__"
    ∷ codes "__defineSetter__"
    ∷ codes "__lookupGetter__"
    ∷ codes "__lookupSetter__"
    ∷ []

unfoldable pub is_inherited : Str → Bool
is_inherited k = any (λ n. str_beq n k) inherited_names

-- `k in o`, of an object that was written `{}` and then filled.
abbrev pub has_property {ℓ} : {V : Type ℓ} → Str → List (Str × V) → Bool
has_property k o = is_inherited k || any (λ kv. str_beq kv.0 k) o

-- `o[k] = v` for a text `v`. To `__proto__` a text is not assigned.
unfoldable pub set_property {ℓ} : {V : Type ℓ} → Str → V → List (Str × V) → List (Str × V)
set_property k v o = if str_beq k (codes "__proto__") then o else insert k v o

-- A white space of the language, or the end of a line.
abbrev pub is_space : ℕ → Bool
is_space c =
    leb 9 c && leb c 13
    || any (nat_beq c) (32 ∷ 160 ∷ 5760 ∷ 8232 ∷ 8233 ∷ 8239 ∷ 8287 ∷ 12288 ∷ 65279 ∷ [])
    || leb 8192 c && leb c 8202

abbrev pub drop_spaces : Str → Str
drop_spaces [] = []
drop_spaces (c ∷ cs) = if is_space c then drop_spaces cs else c ∷ cs

-- `s.trim()`
abbrev pub trim : Str → Str
trim s = reverse (drop_spaces (reverse (drop_spaces s)))
