-- ===== src/Py/Access.antt =====
-- Truth, subscripts, `.get`, iteration and type tests on JSON values.
use resq.Base.{
  string_eq, String, Bool, true, false, not, List, [], ◌∷◌, map, Option, none, some, ◌==◌, nat_eq,
  if◌then◌else◌,
}
use resq.Py.Value.{
  pos, negsuc, finite, infinity, nan, Json, null, bool, int, float, str, arr, obj, nil, cons,
  Fields, end, field, elements, entries, of_entries,
}
use resq.Py.Result.{Result, ok, err, key_error, type_error, attribute_error}
use resq.Py.Dict.{lookup, insert, remove, keys, is_some}

-- `bool(x)`
unfoldable pub truthy : Json → Bool
truthy null = false
truthy (bool b) = b
truthy (int (pos n)) = not (nat_eq n 0)
truthy (int (negsuc n)) = true
truthy (float (finite s m)) = not (nat_eq m 0)
truthy (float (infinity s)) = true
truthy (float nan) = true
truthy (str s) = not (s == "")
truthy (arr nil) = false
truthy (arr (cons x xs)) = true
truthy (obj end) = false
truthy (obj (field k v fs)) = true

-- `x or y`
unfoldable pub or_else : Json → Json → Json
unfolding truthy
or_else x y = if truthy x then x else y

abbrev pub found : String → Option Json → Result Json
found k none = err (key_error k)
found k (some v) = ok v

-- `x[k]` with a text `k`
unfoldable pub subscript : Json → String → Result Json
subscript (obj fs) k = found k (lookup k (entries fs))
subscript null k = err type_error
subscript _ k = err type_error

abbrev pub get_or : Option Json → Json → Json
get_or none d = d
get_or (some v) d = v

-- `x.get(k, d)`
unfoldable pub get : Json → String → Json → Result Json
get (obj fs) k d = ok (get_or (lookup k (entries fs)) d)
get null k d = err attribute_error
get _ k d = err attribute_error

-- `k in x` for a `dict`
unfoldable pub has_key : Fields → String → Bool
has_key fs k = is_some (lookup k (entries fs))

-- `x[k] = v`
unfoldable pub set_item : Json → String → Json → Result Json
set_item (obj fs) k v = ok (obj (of_entries (insert k v (entries fs))))
set_item null k v = err type_error
set_item _ k v = err type_error

-- `x.pop(k, None)`, for its effect
unfoldable pub pop : Json → String → Result Json
pop (obj fs) k = ok (obj (of_entries (remove k (entries fs))))
pop null k = err attribute_error
pop _ k = err attribute_error

unfoldable pub characters : String → List Json
characters String.[] = []
characters (String.◌∷◌ c s) = str (String.◌∷◌ c String.[]) ∷ characters s

-- `for y in x`
unfoldable pub iterate : Json → Result (List Json)
unfolding characters
iterate (arr xs) = ok (elements xs)
iterate (obj fs) = ok (map str (keys (entries fs)))
iterate (str s) = ok (characters s)
iterate null = err type_error
iterate _ = err type_error

-- `isinstance(x, dict)`, and so on; `bool` is a subclass of `int`
unfoldable pub is_dict : Json → Bool
is_dict (obj fs) = true
is_dict null = false
is_dict _ = false

unfoldable pub is_list : Json → Bool
is_list (arr xs) = true
is_list null = false
is_list _ = false

unfoldable pub is_str : Json → Bool
is_str (str s) = true
is_str null = false
is_str _ = false

unfoldable pub is_bool : Json → Bool
is_bool (bool b) = true
is_bool null = false
is_bool _ = false

unfoldable pub is_int : Json → Bool
is_int (int z) = true
is_int (bool b) = true
is_int null = false
is_int _ = false

-- `isinstance(x, str) and x`, with the text
unfoldable pub nonempty_str : Json → Option String
nonempty_str (str s) = if s == "" then none else some s
nonempty_str null = none
nonempty_str _ = none

-- the text of a value that a check has found to be one
unfoldable pub text_of : Json → Result String
text_of (str s) = ok s
text_of null = err type_error
text_of _ = err type_error
