-- ===== src/Json.antt =====
-- Documents as `json.loads` and `yaml.safe_load` return them, and the dictionary calls on them.
pub mod Equality
pub mod Laws
use Prim.Native.Char.{code}
use the_pass.Prelude.{
  ◌+◌, ◌*◌, ◌-◌, ℕ, String, Bool, true, false, not, Option, none, some, List, [], ◌∷◌, ◌≡◌, refl,
  str_eq, arith, if◌then◌else◌, is_empty, eq_iff, ◌==◌, ◌&&◌, ◌||◌, Option, none, some, List, [],
  ◌∷◌, ltb, leb,
}

-- Python's unbounded `int`: `negsuc n` is -(n + 1).
pub data ℤ : Type 0 where
  pos : ℕ → ℤ
  negsuc : ℕ → ℤ

-- `decimal` is a float, by its printed form.
mutual
  pub data Value : Type 0 where
    null : Value
    boolean : Bool → Value
    integer : ℤ → Value
    decimal : String → Value
    text : String → Value
    array : Items → Value
    object : Fields → Value

  pub data Items : Type 0 where
    end : Items
    item : Value → Items → Items

  pub data Fields : Type 0 where
    nil : Fields
    field : String → Value → Fields → Fields

-- `document.get(key)`, with `None` for a missing key.
abbrev pub get : String → Fields → Value
get k nil = null
get k (field j v m) = if str_eq k j then v else get k m

-- `{key: value for ... if key != k}`
abbrev pub remove : String → Fields → Fields
remove k nil = nil
remove k (field j v m) = if str_eq k j then remove k m else field j v (remove k m)

-- `document[key] = value`: in place, or at the end.
abbrev pub insert : String → Value → Fields → Fields
insert k v nil = field k v nil
insert k v (field j w m) = if str_eq k j then field j v m else field j w (insert k v m)

-- `value == "text"`
abbrev pub is_text : String → Value → Bool
is_text s (text t) = str_eq s t
is_text s _ = false

-- `isinstance(value, str)`
abbrev pub is_str : Value → Bool
is_str (text t) = true
is_str _ = false

-- `isinstance(value, int) and not isinstance(value, bool) and value >= n`
abbrev pub is_int_from : ℕ → Value → Bool
is_int_from n (integer (pos k)) = leb n k
is_int_from n _ = false

-- `isinstance(value, str) and value`
abbrev pub is_filled_text : Value → Bool
is_filled_text (text t) = not (is_empty t)
is_filled_text _ = false

-- `value is None`
abbrev pub is_null : Value → Bool
is_null null = true
is_null _ = false

-- `str(document.get(key, ""))` at a key that holds a text or is missing.
abbrev pub text_or_empty : Value → String
text_or_empty (text t) = t
text_or_empty _ = ""

int_eq : ℤ → ℤ → Bool
int_eq (pos a) (pos b) = a == b
int_eq (negsuc a) (negsuc b) = a == b
int_eq _ _ = false

bool_eq : Bool → Bool → Bool
bool_eq true b = b
bool_eq false b = not b

-- Structural equality. Python's `==` also identifies `True` with `1`, and ignores the order of keys.
unfoldable mutual
  unfolding int_eq bool_eq

  pub value_eq : Value → Value → Bool
  value_eq null null = true
  value_eq (boolean a) (boolean b) = bool_eq a b
  value_eq (integer a) (integer b) = int_eq a b
  value_eq (decimal a) (decimal b) = str_eq a b
  value_eq (text a) (text b) = str_eq a b
  value_eq (array a) (array b) = items_eq a b
  value_eq (object a) (object b) = fields_eq a b
  value_eq _ _ = false

  pub items_eq : Items → Items → Bool
  items_eq end end = true
  items_eq (item v r) (item w s) = value_eq v w && items_eq r s
  items_eq _ _ = false

  pub fields_eq : Fields → Fields → Bool
  fields_eq nil nil = true
  fields_eq (field k v r) (field j w s) = str_eq k j && value_eq v w && fields_eq r s
  fields_eq _ _ = false

-- The whole number that a float is, by its printed form `digits.0`, which Python prints below 1e16.
unfoldable pub whole_from : ℕ → String → Option ℕ
whole_from n String.[] = none
whole_from n (String.◌∷◌ c s) =
    let d = code c in
    let rest = whole_from (n * 10 + (d - 48)) s in
    if d == 46
    then (if str_eq s "0" then some n else none)
    else if leb 48 d && leb d 57
    then rest
    else none

abbrev pub same_number : ℕ → Option ℕ → Bool
same_number n none = false
same_number n (some k) = n == k

-- `value == n`: Python identifies the integer with a float and, at 0 and 1, with a Boolean.
unfoldable pub equals_int : ℕ → Value → Bool
equals_int n (integer (pos k)) = n == k
equals_int n (boolean b) = n == (if b then 1 else 0)
equals_int n (decimal s) = same_number n (whole_from 0 s)
equals_int n _ = false

-- The elements of a list, and none for anything else.
abbrev pub elements : Items → List Value
elements end = []
elements (item v r) = v ∷ elements r

abbrev pub list_of : Value → List Value
list_of (array r) = elements r
list_of _ = []

-- A dictionary display `{key: value, …}`.
abbrev pub dict : List (String × Value) → Fields
dict [] = nil
dict ((k, v) ∷ m) = field k v (dict m)

-- A list display, or `[*first, *rest]`.
abbrev pub items : List Value → Items
items [] = end
items (v ∷ r) = item v (items r)

-- `document.get(key, default)`
abbrev pub get_or : String → Value → Fields → Value
get_or k d nil = d
get_or k d (field j v m) = if str_eq k j then v else get_or k d m

-- `not value`
abbrev pub is_falsy : Value → Bool
is_falsy null = true
is_falsy (boolean b) = not b
is_falsy (integer (pos n)) = n == 0
is_falsy (decimal s) = str_eq s "0.0" || str_eq s "-0.0"
is_falsy (text s) = is_empty s
is_falsy (array end) = true
is_falsy (object nil) = true
is_falsy _ = false

-- `isinstance(value, dict)`, with the dictionary.
abbrev pub as_object : Value → Option Fields
as_object (object m) = some m
as_object _ = none

-- `key in document`
abbrev pub has_key : String → Fields → Bool
has_key k nil = false
has_key k (field j v m) = str_eq k j || has_key k m

-- `list(document)` and `list(document.values())`
abbrev pub keys_of : Fields → List String
keys_of nil = []
keys_of (field k v m) = k ∷ keys_of m

abbrev pub values_of : Fields → List Value
values_of nil = []
values_of (field k v m) = v ∷ values_of m

-- `isinstance(value, list)`
abbrev pub is_list : Value → Bool
is_list (array r) = true
is_list _ = false

-- `value is True` and `value is False`
abbrev pub is_true : Value → Bool
is_true (boolean b) = b
is_true _ = false

abbrev pub is_false : Value → Bool
is_false (boolean b) = not b
is_false _ = false

-- The texts of a list.
abbrev pub texts : List Value → List String
texts [] = []
texts (text t ∷ r) = t ∷ texts r
texts (v ∷ r) = texts r

-- The dictionary at a key, empty where there is none.
abbrev pub object_at : String → Fields → Fields
object_at k m = elim (get k m) [ object o ↦ o | _ ↦ nil ]
