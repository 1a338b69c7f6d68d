-- ===== src/Common/Value.antt =====
-- The JSON-like values that the program keeps in its untyped dictionaries. Floats are not modelled.
use back_office_fintech.Common.{ℕ, String, Bool, Option, none, some, List, [], ◌∷◌}
use back_office_fintech.Common.Int.{ℤ, pos}

mutual
  pub data Fields : Type 0 where
    no_fields : Fields
    with_field : String → Value → Fields → Fields

  pub data Elements : Type 0 where
    no_elements : Elements
    with_element : Value → Elements → Elements

  pub data Value : Type 0 where
    text : String → Value
    bool : Bool → Value
    num : ℤ → Value
    null : Value
    dict : Fields → Value
    list : Elements → Value

abbrev pub nat : ℕ → Value
nat n = num (pos n)

abbrev elements_of : List String → Elements
elements_of [] = no_elements
elements_of (s ∷ ss) = with_element (text s) (elements_of ss)

-- A list of texts.
abbrev pub texts : List String → Value
texts ss = list (elements_of ss)

abbrev pub optional_text : Option String → Value
optional_text none = null
optional_text (some s) = text s

abbrev pub optional_num : Option ℤ → Value
optional_num none = null
optional_num (some n) = num n

-- A dictionary literal.
abbrev pub fields_of : List (String × Value) → Fields
fields_of [] = no_fields
fields_of ((k, v) ∷ d) = with_field k v (fields_of d)
