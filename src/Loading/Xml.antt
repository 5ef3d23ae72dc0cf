-- ===== src/Loading/Xml.antt =====
-- The trees that TinyXML makes of a file, as far as src/DeviceManager.cpp reads them.
use Prim.Native.String.{String}
use text.Mathlib.Text.{◌==◌ as str_eq}
use dbdky_gcc.Common.{Option, none, some, Bool, true, false, if◌then◌else◌}
use dbdky_gcc.Common.Dict.{Dict, lookup}

mutual
  -- An element has a value, which is its name, attributes and children.
  pub data Node : Type 0 where
    element : String → Dict String → Nodes → Node
    plain : String → Node
    comment : String → Node

  pub data Nodes : Type 0 where
    nil : Nodes
    cons : Node → Nodes → Nodes

abbrev pub value : Node → String
value (element name attributes children) = name
value (plain t) = t
value (comment t) = t

-- Whether `ToElement` is not NULL.
abbrev pub is_element : Node → Bool
is_element (element name attributes children) = true
is_element (plain t) = false
is_element (comment t) = false

abbrev pub children : Node → Nodes
children (element name attributes nodes) = nodes
children (plain t) = nil
children (comment t) = nil

-- A `std::string` of `ToElement()->Attribute(key)`; `none` where one of the pointers is NULL.
abbrev pub attribute : String → Node → Option String
attribute key (element name attributes nodes) = lookup key attributes
attribute key (plain t) = none
attribute key (comment t) = none

abbrev first_text : Nodes → Option String
first_text (cons (plain t) l) = some t
first_text l = none

-- A `std::string` of `ToElement()->GetText()`: the text that is the first child.
abbrev pub get_text : Node → Option String
get_text (element name attributes nodes) = first_text nodes
get_text (plain t) = none
get_text (comment t) = none

-- The children from `FirstChild(name)` on, which `NextSibling` steps through.
unfoldable pub first_child : String → Nodes → Nodes
first_child name nil = nil
first_child name (cons n l) = if str_eq (value n) name then cons n l else first_child name l
