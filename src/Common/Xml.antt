-- ===== src/Common/Xml.antt =====
-- The trees of Python's xml.etree.
use mathlib.Core.Option.{Option}
use mathlib.Core.List.{List, [], ◌∷◌, ◌++◌}
use qervan_ai.Common.Texts.{Text}

-- An element of the tree: its tag in braces notation, its attributes, its text, its children.
mutual
  pub data Element : Type 0 where
    element :
        (tag : Text) (attrib : List (Text × Text)) (content : Option Text) (children : Elements)
        → Element

  pub data Elements : Type 0 where
    no_elements : Elements
    more : Element → Elements → Elements

abbrev pub tag_of : Element → Text
tag_of (element tag attrib content children) = tag

abbrev pub content_of : Element → Option Text
content_of (element tag attrib content children) = content

abbrev pub children_list : Elements → List Element
children_list no_elements = []
children_list (more e es) = e ∷ children_list es

abbrev pub attrib_of : Element → List (Text × Text)
attrib_of (element tag attrib content children) = attrib

abbrev pub inner : Element → List Element
inner (element tag attrib content children) = children_list children

-- element.iter(): the element and all below it, in document order.
unfoldable mutual
  pub iter : Element → List Element
  iter (element tag attrib content children) =
      element tag attrib content children ∷ iter_all children

  pub iter_all : Elements → List Element
  iter_all no_elements = []
  iter_all (more e es) = iter e ++ iter_all es

abbrev pub below : Element → List Element
below (element tag attrib content children) = iter_all children
