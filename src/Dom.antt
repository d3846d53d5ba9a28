-- ===== src/Dom.antt =====
-- XML elements as the source uses the `minidom` crate: an interface for the operations that the
-- code calls, with the documented laws of the builder, and a tree that shows that they can hold.
use monocles_chat_desktop.Base.{
  ◌≡◌, refl, Bool, ◌&&◌, List, [], ◌∷◌, Option, Text, Map, text_eq, lookup, find, is_some,
}

pub record Dom : Type 1 where
  pub Element : Type 0
  -- `Element::builder(name, ns)`, the attributes, the child elements, the text, `build()`.
  pub build : Text → Text → Map Text → List Element → Text → Element
  pub name : Element → Text
  pub ns : Element → Text
  -- `attr` reads by this list.
  pub attrs : Element → Map Text
  pub children : Element → List Element
  pub text : Element → Text

-- What the code relies on: a built element reads back.
module _ (d : Dom) where
  open d use {build, name, ns, attrs, children}

  pub record DomLaws : Type 0 where
    pub name-build :
        (n s : Text) (ats : Map Text) (cs : List d.Element) (t : Text)
        → name (build n s ats cs t) ≡ n
    pub ns-build :
        (n s : Text) (ats : Map Text) (cs : List d.Element) (t : Text) → ns (build n s ats cs t) ≡ s
    pub attrs-build :
        (n s : Text) (ats : Map Text) (cs : List d.Element) (t : Text)
        → attrs (build n s ats cs t) ≡ ats
    pub children-build :
        (n s : Text) (ats : Map Text) (cs : List d.Element) (t : Text)
        → children (build n s ats cs t) ≡ cs

module _ (d : Dom) where
  open d use {Element, name, ns, attrs, children}

  -- `Element::attr`.
  unfoldable pub attr : Text → Element → Option Text
  unfolding lookup
  attr k e = lookup k (attrs e)

  -- `Element::get_child(name, ns)`: the first child of that name and namespace.
  unfoldable pub get_child : Text → Text → Element → Option Element
  unfolding text_eq
  get_child n s e = find (λ c. text_eq (name c) n && text_eq (ns c) s) (children e)

  -- `get_child(…).is_some()`.
  abbrev pub has_child : Text → Text → Element → Bool
  has_child n s e = is_some (get_child n s e)

-- A tree of elements.
mutual
  pub data Tree : Type 0 where
    node : Text → Text → Map Text → Trees → Text → Tree

  pub data Trees : Type 0 where
    nil : Trees
    cons : Tree → Trees → Trees

abbrev to_list : Trees → List Tree
to_list nil = []
to_list (cons t ts) = t ∷ to_list ts

abbrev of_list : List Tree → Trees
of_list [] = nil
of_list (t ∷ ts) = cons t (of_list ts)

abbrev tree_name : Tree → Text
tree_name (node n s ats cs t) = n

abbrev tree_ns : Tree → Text
tree_ns (node n s ats cs t) = s

abbrev tree_attrs : Tree → Map Text
tree_attrs (node n s ats cs t) = ats

abbrev tree_children : Tree → List Tree
tree_children (node n s ats cs t) = to_list cs

abbrev tree_text : Tree → Text
tree_text (node n s ats cs t) = t

abbrev pub tree_dom : Dom
tree_dom = record {
  Element = Tree;
  build = λ n s ats cs t. node n s ats (of_list cs) t;
  name = tree_name;
  ns = tree_ns;
  attrs = tree_attrs;
  children = tree_children;
  text = tree_text;
}

to_list-of_list : (ts : List Tree) → to_list (of_list ts) ≡ ts
to_list-of_list [] = refl
to_list-of_list (t ∷ ts) = λ i. t ∷ to_list-of_list ts i

pub tree_laws : DomLaws tree_dom
tree_laws = record {
  name-build = λ n s ats cs t. refl;
  ns-build = λ n s ats cs t. refl;
  attrs-build = λ n s ats cs t. refl;
  children-build = λ n s ats cs t. to_list-of_list cs;
}
