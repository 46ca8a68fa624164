-- ===== src/Prelude/Value.antt =====
-- The values of JavaScript that reach the code as `unknown`: parameters that a language model
-- chose, evidence, pending resolutions. Numbers are natural; the code only tests or passes them on.
use Prim.Native.Nat.{ℕ}
use Prim.Native.String.{String}
use mathlib.Core.Bool.{Bool, true, false}
use mathlib.Core.List.{List, [], ◌∷◌}
use mathlib.Core.Option.{Option, none, some}
use semantask.Prelude.Tests.{◌==◌, str_eq, if◌then◌else◌}
use semantask.Prelude.Text.{Text, is_filled}

mutual
  pub data Elements : Type 0 where
    no_elements : Elements
    element : Value → Elements → Elements

  pub data Record : Type 0 where
    no_properties : Record
    property : (key : String) → Value → Record → Record

  pub data Value : Type 0 where
    text : Text → Value
    number : (n : ℕ) → Value
    boolean : (b : Bool) → Value
    list : Elements → Value
    object : Record → Value
    null_value : Value

-- `Boolean(value)`
abbrev pub is_truthy : Value → Bool
is_truthy (text s) = is_filled s
is_truthy (number n) = if n == 0 then false else true
is_truthy (boolean b) = b
is_truthy (list xs) = true
is_truthy (object fs) = true
is_truthy null_value = false

-- An optional value, in the places where `undefined` and a false value count alike.
abbrev pub truthy : Option Value → Option Value
truthy none = none
truthy (some v) = if is_truthy v then some v else none

-- `record[key]`
unfoldable pub property_of : String → Record → Option Value
property_of key no_properties = none
property_of key (property k v rest) = if str_eq k key then some v else property_of key rest

-- The elements of an array that are texts.
unfoldable pub texts_of : Elements → List Text
texts_of no_elements = []
texts_of (element (text s) xs) = s ∷ texts_of xs
texts_of (element v xs) = texts_of xs
