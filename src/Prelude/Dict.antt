-- ===== src/Prelude/Dict.antt =====
-- A JavaScript object or `Map` used as a dictionary: an association list in insertion order, with
-- one entry for each key. Integer-like keys, which an object lists first, do not occur.
use mathlib.Core.Path.{◌≡◌, refl}
use mathlib.Core.Bool.{Bool}
use mathlib.Core.Option.{Option, none, some}
use mathlib.Core.List.{List, [], ◌∷◌}
use native.Mathlib.Omega.{arith}
use tether_ddns.Prelude.Tests.{if◌then◌else◌}
use tether_ddns.Prelude.Lists.{keep}
use tether_ddns.Prelude.Keys.{Eq, ◌==◌}

module _ {ℓ} {K : Type 0} {V : Type ℓ} ⦃e : Eq K⦄ where
  unfoldable pub insert : K → V → List (K × V) → List (K × V)
  insert key new [] = (key, new) ∷ []
  insert key new ((first, value) ∷ rest) =
      if first == key then (key, new) ∷ rest else (first, value) ∷ insert key new rest

  unfoldable pub lookup : K → List (K × V) → Option V
  lookup key [] = none
  lookup key ((first, value) ∷ rest) = if first == key then some value else lookup key rest

  pub lookup-insert :
      (key other : K) (new : V) (entries : List (K × V))
      → lookup other (insert key new entries)
        ≡ (if key == other then some new else lookup other entries)
  unfolding lookup insert
  lookup-insert key other new [] = refl
  lookup-insert key other new ((first, value) ∷ rest) = ground (
    arith,
    lookup-insert key other new rest,
    e.beq_iff first key,
    e.beq_iff first other,
    e.beq_iff key other,
  )

  -- Keeping the entries whose key passes a test.
  pub lookup-keep :
      (p : K → Bool) (j : K) (m : List (K × V))
      → lookup j (keep (λ kv. p kv.0) m) ≡ (if p j then lookup j m else none)
  unfolding lookup
  lookup-keep p j [] = ground arith
  lookup-keep p j ((i, w) ∷ m) = ground (arith, e.beq_iff i j, lookup-keep p j m)
