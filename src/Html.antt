-- ===== src/Html.antt =====
-- What a component of the front end renders (the JSX under frontend/src): elements with attributes,
-- children and listeners. Texts that are shown are kept as they are built; `E` is what a listener
-- does.
use Prim.Native.String
use tether_ddns.Prelude.{
  String, Bool, true, false, Option, none, some, List, [], ◌∷◌, ◌++◌, any, ◌==◌, string_eq,
  if◌then◌else◌,
}
use tether_ddns.Prelude.Text.{Text, lit}

infixr 45 ◌⧺◌
abbrev pub ◌⧺◌ : String → String → String
s ⧺ t = String.◌++◌ s t

pub data Attr (E : Type 0) : Type 0 where
  attr : String → String → Attr E
  -- an attribute whose value is shown, such as `title`
  attr_text : String → Text → Attr E
  -- an attribute that is there, such as `disabled`
  flag : String → Attr E
  -- listeners: for an event, for an event on the element itself and not on a child, for a key, and
  -- for the new value or state of an input
  on on_self on_key : String → E → Attr E
  on_value : (String → E) → Attr E
  on_checked : (Bool → E) → Attr E

mutual
  pub data Html (E : Type 0) : Type 0 where
    text_node : Text → Html E
    element : String → List (Attr E) → Nodes E → Html E

  pub data Nodes (E : Type 0) : Type 0 where
    nil : Nodes E
    cons : Html E → Nodes E → Nodes E

module _ {E : Type 0} where
  -- The children of an element.
  abbrev pub nodes : List (Html E) → Nodes E
  nodes [] = nil
  nodes (h ∷ hs) = cons h (nodes hs)

  abbrev pub words : String → Html E
  words s = text_node (lit s ∷ [])

  -- An attribute that is there if a test holds, or if there is a value for it.
  abbrev pub flag_if : Bool → String → List (Attr E)
  flag_if b name = if b then flag name ∷ [] else []

  abbrev pub attr_if : String → Option String → List (Attr E)
  attr_if name none = []
  attr_if name (some v) = attr name v ∷ []

  abbrev pub class : String → Attr E
  class names = attr "class" names

  abbrev pub value_of : String → Attr E → List String
  value_of name (attr n v) = if n == name then v ∷ [] else []
  value_of name _ = []

  -- The values of the attributes with a name.
  abbrev pub values : String → List (Attr E) → List String
  values name [] = []
  values name (a ∷ attrs) = value_of name a ++ values name attrs

  abbrev is_flag : String → Attr E → Bool
  is_flag name (flag n) = n == name
  is_flag name _ = false

  abbrev pub has_flag : String → List (Attr E) → Bool
  has_flag name attrs = any (is_flag name) attrs

  abbrev action_of : Attr E → List E
  action_of (on n e) = e ∷ []
  action_of (on_self n e) = e ∷ []
  action_of (on_key n e) = e ∷ []
  action_of (on_value f) = f "" ∷ []
  action_of (on_checked f) = f true ∷ f false ∷ []
  action_of _ = []

  -- What the listeners of an element do; where a text is entered, for the empty text.
  abbrev pub actions : List (Attr E) → List E
  actions [] = []
  actions (a ∷ attrs) = action_of a ++ actions attrs

-- The ids of the elements.
abbrev mutual
  pub ids : {E : Type 0} → Html E → List String
  ids (text_node t) = []
  ids (element tag attrs children) = values "id" attrs ++ ids_in children

  pub ids_in : {E : Type 0} → Nodes E → List String
  ids_in nil = []
  ids_in (cons h hs) = ids h ++ ids_in hs

-- The ids that elements refer to: what labels them, what describes them, or what they label.
abbrev pub references : {E : Type 0} → List (Attr E) → List String
references attrs =
    values "for" attrs ++ values "aria-describedby" attrs ++ values "aria-labelledby" attrs

abbrev mutual
  pub refs : {E : Type 0} → Html E → List String
  refs (text_node t) = []
  refs (element tag attrs children) = references attrs ++ refs_in children

  pub refs_in : {E : Type 0} → Nodes E → List String
  refs_in nil = []
  refs_in (cons h hs) = refs h ++ refs_in hs

-- What the user can do: the listeners of the elements that are not disabled, outside of what is inert.
abbrev mutual
  pub live : {E : Type 0} → Html E → List E
  live (text_node t) = []
  live (element tag attrs children) =
      if has_flag "inert" attrs
      then []
      else (if has_flag "disabled" attrs then [] else actions attrs) ++ live_in children

  pub live_in : {E : Type 0} → Nodes E → List E
  live_in nil = []
  live_in (cons h hs) = live h ++ live_in hs

-- The texts that are shown, in their order.
abbrev mutual
  pub shown_texts : {E : Type 0} → Html E → List Text
  shown_texts (text_node t) = t ∷ []
  shown_texts (element tag attrs children) = shown_texts_in children

  pub shown_texts_in : {E : Type 0} → Nodes E → List Text
  shown_texts_in nil = []
  shown_texts_in (cons h hs) = shown_texts h ++ shown_texts_in hs
