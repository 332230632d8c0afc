-- ===== src/Common/Value.antt =====
-- The JavaScript values that settings and request bodies hold, as JSON gives them, with
-- `undefined` for what is missing. A number is a double: not a number, an infinity, or a dyadic
-- rational, a mantissa over a power of two, which every finite double is.
use Prim.Native.Nat.{ℕ, ◌/◌, ◌^◌}
use mathlib.Core.Bool.{Bool, true, false, not, ◌&&◌}
use mathlib.Core.Option.{Option, none, some}
use mathlib.Core.List.{List, [], ◌∷◌}
use evukb.Common.Tests.{ltb, if◌then◌else◌}
use evukb.Common.Text.{Text, text_eq}

pub data Number : Type 0 where
  nan : Number
  infinite : (negative : Bool) → Number
  dyadic : (negative : Bool) (mantissa shift : ℕ) → Number

-- n > 0
unfoldable pub is_positive : Number → Bool
is_positive nan = false
is_positive (infinite negative) = not negative
is_positive (dyadic negative m s) = not negative && ltb 0 m

-- n < 0
unfoldable pub is_negative : Number → Bool
is_negative nan = false
is_negative (infinite negative) = negative
is_negative (dyadic negative m s) = negative && ltb 0 m

-- Number.isFinite(n)
unfoldable pub is_finite : Number → Bool
is_finite (dyadic negative m s) = true
is_finite nan = false
is_finite (infinite negative) = false

-- Math.floor(n), for a number that is not negative.
unfoldable pub floor : Number → Number
floor (dyadic negative m s) = dyadic negative (m / 2 ^ s) 0
floor nan = nan
floor (infinite negative) = infinite negative

mutual
  pub data Value : Type 0 where
    undefined null : Value
    boolean : Bool → Value
    number : Number → Value
    string : Text → Value
    array : Items → Value
    object : Fields → Value

  pub data Items : Type 0 where
    nil : Items
    item : Value → Items → Items

  pub data Fields : Type 0 where
    end : Fields
    field : Text → Value → Fields → Fields

-- The elements of an array.
abbrev pub items : Items → List Value
items nil = []
items (item v vs) = v ∷ items vs

-- `Object.entries`: the own properties in order. Of a key that stands twice the first counts.
abbrev pub entries : Fields → List (Text × Value)
entries end = []
entries (field k v fs) = (k, v) ∷ entries fs

-- object[key], `undefined` for a missing key
unfoldable pub get : Text → Fields → Value
get key end = undefined
get key (field k v fs) = if text_eq k key then v else get key fs

-- A value as a non-null object that is no array.
unfoldable pub as_object : Value → Option Fields
as_object (object fs) = some fs
as_object undefined = none
as_object _ = none

-- Boolean(v)
unfoldable pub is_truthy : Value → Bool
is_truthy undefined = false
is_truthy null = false
is_truthy (boolean b) = b
is_truthy (number nan) = false
is_truthy (number (infinite _)) = true
is_truthy (number (dyadic _ m _)) = ltb 0 m
is_truthy (string []) = false
is_truthy (string (_ ∷ _)) = true
is_truthy (array _) = true
is_truthy (object _) = true

unfoldable pub is_undefined : Value → Bool
is_undefined undefined = true
is_undefined _ = false

unfoldable pub is_null : Value → Bool
is_null null = true
is_null _ = false

unfoldable pub is_string : Value → Bool
is_string (string _) = true
is_string _ = false

unfoldable pub is_boolean : Value → Bool
is_boolean (boolean _) = true
is_boolean _ = false

-- v === "…"
unfoldable pub is_text : Value → Text → Bool
is_text (string s) t = text_eq s t
is_text _ t = false

-- v === true
unfoldable pub is_true : Value → Bool
is_true (boolean b) = b
is_true _ = false
