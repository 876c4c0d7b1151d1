-- ===== src/Markup/Resolve.antt =====
-- Whether the ids that elements refer to are ids of elements (frontend/src/components).
use mathlib.Core.List.{append_assoc}
use tether_ddns.Prelude.{
  ◌≡◌, refl, sym, String, Bool, true, false, ◌&&◌, ◌||◌, List, [], ◌∷◌, ◌++◌, map, any, all,
  if◌then◌else◌, ◌==◌, string_eq, arith,
}
use tether_ddns.Html.{
  Attr, value_of, Html, element, Nodes, nil, cons, nodes, values, ids, ids_in, refs, refs_in,
  references,
}

abbrev pub resolve : List String → List String → Bool
resolve names rs = all (λ r. any (λ i. i == r) names) rs

resolve-append :
    (names rs ss : List String) → resolve names (rs ++ ss) ≡ (resolve names rs && resolve names ss)
resolve-append names [] ss = refl
resolve-append names (r ∷ rs) ss = ground (arith, resolve-append names rs ss)

any-append : (p : String → Bool) (xs ys : List String) → any p (xs ++ ys) ≡ (any p xs || any p ys)
any-append p [] ys = refl
any-append p (x ∷ xs) ys = ground (arith, any-append p xs ys)

resolve-left :
    (names more rs : List String) → resolve names rs ≡ true → resolve (names ++ more) rs ≡ true
resolve-left names more [] h = refl
resolve-left names more (r ∷ rs) h =
    ground (arith, any-append (λ i. i == r) names more, resolve-left names more rs)

pub resolve-right :
    (more names rs : List String) → resolve names rs ≡ true → resolve (more ++ names) rs ≡ true
resolve-right more names [] h = refl
resolve-right more names (r ∷ rs) h =
    ground (arith, any-append (λ i. i == r) more names, resolve-right more names rs)

resolve-both :
    (names more rs ss : List String)
    → resolve names rs ≡ true
    → resolve more ss ≡ true
    → resolve (names ++ more) (rs ++ ss) ≡ true
resolve-both names more rs ss h k = ground (
  arith,
  resolve-append (names ++ more) rs ss,
  resolve-left names more rs h,
  resolve-right names more ss k,
)

-- Each id that an element refers to is the id of an element.
pub record IsResolved {E : Type 0} (h : Html E) : Type 0 where
  pub found : resolve (ids h) (refs h) ≡ true

pub record AreResolved {E : Type 0} (hs : Nodes E) : Type 0 where
  pub found : resolve (ids_in hs) (refs_in hs) ≡ true

module _ {E : Type 0} where
  pub values-append :
      (name : String) (xs ys : List (Attr E))
      → values name (xs ++ ys) ≡ values name xs ++ values name ys
  values-append name [] ys = refl
  values-append name (x ∷ xs) ys = ground (
    arith,
    values-append name xs ys,
    append_assoc (value_of name x) (values name xs) (values name ys),
  )

  -- Lists of elements that refer to nothing.
  pub refs-map :
      {A : Type 0} (f : A → Html E) (xs : List A)
      → ((x : A) → refs (f x) ≡ [])
      → refs_in (nodes (map f xs)) ≡ []
  refs-map f [] h = refl
  refs-map f (x ∷ xs) h = rw (h x, refs-map f xs h) refl

  pub ids-map :
      {A : Type 0} (f : A → Html E) (xs : List A)
      → ((x : A) → ids (f x) ≡ [])
      → ids_in (nodes (map f xs)) ≡ []
  ids-map f [] h = refl
  ids-map f (x ∷ xs) h = rw (h x, ids-map f xs h) refl

  -- What refers to nothing needs nothing.
  pub quiet-IsResolved : (h : Html E) → refs h ≡ [] → IsResolved h
  quiet-IsResolved h e = record { found = rw e refl }

  pub quiet-AreResolved : (hs : Nodes E) → refs_in hs ≡ [] → AreResolved hs
  quiet-AreResolved hs e = record { found = rw e refl }

  pub nil-AreResolved : AreResolved {E = E} nil
  nil-AreResolved = record { found = refl }

  pub if-IsResolved :
      (b : Bool) (h k : Html E) → IsResolved h → IsResolved k → IsResolved (if b then h else k)
  if-IsResolved true h k p q = p
  if-IsResolved false h k p q = q

  pub cons-AreResolved :
      (h : Html E) (hs : Nodes E) → IsResolved h → AreResolved hs → AreResolved (cons h hs)
  cons-AreResolved h hs p q = record {
    found = resolve-both (ids h) (ids_in hs) (refs h) (refs_in hs) p.found q.found;
  }

  ids-append :
      (hs ks : List (Html E)) → ids_in (nodes (hs ++ ks)) ≡ ids_in (nodes hs) ++ ids_in (nodes ks)
  ids-append [] ks = refl
  ids-append (h ∷ hs) ks =
      rw (ids-append hs ks) (sym (append_assoc (ids h) (ids_in (nodes hs)) (ids_in (nodes ks))))

  refs-append :
      (hs ks : List (Html E))
      → refs_in (nodes (hs ++ ks)) ≡ refs_in (nodes hs) ++ refs_in (nodes ks)
  refs-append [] ks = refl
  refs-append (h ∷ hs) ks =
      rw (refs-append hs ks) (sym (append_assoc (refs h) (refs_in (nodes hs)) (refs_in (nodes ks))))

  pub nodes-AreResolved :
      (hs ks : List (Html E))
      → AreResolved (nodes hs)
      → AreResolved (nodes ks)
      → AreResolved (nodes (hs ++ ks))
  nodes-AreResolved hs ks p q = record {
    found =
        rw (ids-append hs ks, refs-append hs ks)
          (resolve-both (ids_in (nodes hs)) (ids_in (nodes ks)) (refs_in (nodes hs))
            (refs_in (nodes ks)) p.found q.found);
  }

  pub element-IsResolved :
      (tag : String) (attrs : List (Attr E)) (hs : Nodes E)
      → references attrs ≡ []
      → AreResolved hs
      → IsResolved (element tag attrs hs)
  element-IsResolved tag attrs hs e h = record {
    found = rw e (resolve-right (values "id" attrs) (ids_in hs) (refs_in hs) h.found);
  }
