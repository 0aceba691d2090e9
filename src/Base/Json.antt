-- ===== src/Base/Json.antt =====
-- The values of `JSON.parse`, with what the source does to them: property access, `String` and
-- tests of type. The fields of an object stand in the order of enumeration.
use mathlib.Core.List.{List, [], ◌∷◌, ◌++◌}
use mathlib.Core.Bool.{Bool, true, false}
use mathlib.Core.Option.{Option, none, some}
use mathlib.Core.Logic.{ite}
use Prim.Native.Nat.{ℕ}
use dsh_opencode.Base.Texts.{Text, codes, text_dec}

-- A double as it is read: sign, whole part, the rest in a unit small enough for it, and the text
-- that `String` prints. Overflow to infinity is not finite.
pub record Number : Type 0 where
  pub is_finite : Bool
  pub negative : Bool
  pub whole : ℕ
  pub fraction : ℕ
  pub text : Text

mutual
  pub data Json : Type 0 where
    null : Json
    bool : Bool → Json
    num : Number → Json
    str : Text → Json
    arr : Items → Json
    obj : Fields → Json

  pub data Items : Type 0 where
    nil : Items
    cons : Json → Items → Items

  pub data Fields : Type 0 where
    end : Fields
    field : Text → Json → Fields → Fields

abbrev pub items : Items → List Json
items nil = []
items (cons x xs) = x ∷ items xs

abbrev pub of_items : List Json → Items
of_items [] = nil
of_items (x ∷ xs) = cons x (of_items xs)

abbrev pub entries : Fields → List (Text × Json)
entries end = []
entries (field k v fs) = (k, v) ∷ entries fs

-- `fields[k]`, `none` for undefined.
unfoldable pub get : Text → Fields → Option Json
unfolding text_dec
get k end = none
get k (field j v fs) = let rest = get k fs in ite (text_dec j k) (some v) rest

-- A write: in place where the key is there, at the end otherwise.
unfoldable pub set_field : Text → Json → Fields → Fields
unfolding text_dec
set_field k v end = field k v end
set_field k v (field j w fs) =
    let rest = set_field k v fs in ite (text_dec j k) (field j v fs) (field j w rest)

unfoldable pub remove_field : Text → Fields → Fields
unfolding text_dec
remove_field k end = end
remove_field k (field j w fs) =
    let rest = remove_field k fs in ite (text_dec j k) rest (field j w rest)

-- `value[k]`; the properties of arrays and texts that the source never asks for are left out.
abbrev pub member : Text → Json → Option Json
member k (obj fs) = get k fs
member k _ = none

abbrev pub member? : Text → Option Json → Option Json
member? k none = none
member? k (some v) = member k v

-- `value ?? fallback`
abbrev pub or_nullish : Option Json → Option Json → Option Json
or_nullish none fallback = fallback
or_nullish (some null) fallback = fallback
or_nullish (some v) fallback = some v

-- `value && typeof value === 'object'`
abbrev pub is_object : Json → Bool
is_object (obj fs) = true
is_object (arr xs) = true
is_object _ = false

abbrev pub is_true : Option Json → Bool
is_true (some (bool b)) = b
is_true _ = false

-- `value != null`
abbrev pub is_there : Option Json → Bool
is_there none = false
is_there (some null) = false
is_there _ = true

-- The text of a value, where it is one.
abbrev pub text_of : Option Json → Option Text
text_of (some (str s)) = some s
text_of _ = none

-- `String(value)`. An array joins its items, of which null is empty.
unfoldable mutual
  pub string_of : Json → Text
  string_of null = codes "null"
  string_of (bool true) = codes "true"
  string_of (bool false) = codes "false"
  string_of (num n) = n.text
  string_of (str s) = s
  string_of (arr xs) = string_of_items xs
  string_of (obj fs) = codes "[object Object]"

  pub string_of_items : Items → Text
  string_of_items nil = []
  string_of_items (cons null nil) = []
  string_of_items (cons x nil) = string_of x
  string_of_items (cons null (cons y ys)) = codes "," ++ string_of_items (cons y ys)
  string_of_items (cons x (cons y ys)) = string_of x ++ (codes "," ++ string_of_items (cons y ys))

-- `String(value ?? '')`
unfoldable pub string_or_empty : Option Json → Text
unfolding string_of
string_or_empty none = []
string_or_empty (some null) = []
string_or_empty (some v) = string_of v
