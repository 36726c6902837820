-- ===== src/Py/Text.antt =====
-- `str(x)`, and `json.dumps` with sorted keys, compact separators and `allow_nan=False`.
use Prim.Native.Char.{Char, code}
use Prim.Native.String.{◌++◌ as append}
use resq.Base.{
  string_eq, ℕ, zero, suc, ◌/◌, ◌%◌, String, Bool, true, false, List, [], ◌∷◌, Option, nat_eq, ltb,
  if◌then◌else◌, str_le,
}
use resq.Base.Sorting.{sort}
use resq.Py.Value.{
  ℤ, pos, negsuc, Float, finite, infinity, nan, Json, null, bool, int, float, str, arr, obj, Items,
  nil, cons, Fields, end, field,
}
use resq.Py.Result.{Exn, Result, ok, err, value_error, ◌>>=◌}

-- What is left to CPython, and nothing is assumed of: `repr` of floats and containers, `float(s)` and
-- `int(s)` on a text, `datetime.fromisoformat`, and which characters `\d` matches. A time without an offset is `some none`, and one
-- with an offset is its instant, in microseconds.
pub record Runtime : Type 0 where
  pub repr : Json → String
  pub read_float : String → Option Float
  pub read_int : String → Option ℤ
  pub read_time : String → Option (Option ℤ)
  pub is_decimal : Char → Bool

infixr 66 ◌⧺◌
abbrev ◌⧺◌ : String → String → String
◌⧺◌ s t = append s t

digit : ℕ → String
digit zero = "0"
digit (suc zero) = "1"
digit n =
    if nat_eq n 2
    then "2"
    else if nat_eq n 3
    then "3"
    else if nat_eq n 4
    then "4"
    else if nat_eq n 5
    then "5"
    else if nat_eq n 6
    then "6"
    else if nat_eq n 7
    then "7"
    else if nat_eq n 8
    then "8"
    else if nat_eq n 9
    then "9"
    else if nat_eq n 10
    then "a"
    else if nat_eq n 11
    then "b"
    else if nat_eq n 12
    then "c"
    else if nat_eq n 13
    then "d"
    else if nat_eq n 14
    then "e"
    else "f"

-- a number has at most as many digits as units, so the fuel `suc n` lasts
decimal_from : ℕ → ℕ → String → String
decimal_from zero n tail = tail
decimal_from (suc fuel) n tail =
    let rest = decimal_from fuel (n / 10) (digit (n % 10) ⧺ tail) in
    if ltb n 10 then digit n ⧺ tail else rest

unfoldable pub decimal : ℕ → String
unfolding decimal_from digit
decimal n = decimal_from (suc n) n ""

unfoldable pub int_text : ℤ → String
unfolding decimal
int_text (pos n) = decimal n
int_text (negsuc n) = "-" ⧺ decimal (suc n)

-- one character of a JSON text, `ensure_ascii=False`
escape : Char → String
unfolding digit
escape c =
    let n = code c in
    if nat_eq n 34
    then "\\\""
    else if nat_eq n 92
    then "\\\\"
    else if nat_eq n 10
    then "\\n"
    else if nat_eq n 13
    then "\\r"
    else if nat_eq n 9
    then "\\t"
    else if nat_eq n 12
    then "\\f"
    else if nat_eq n 8
    then "\\b"
    else if ltb n 32
    then "\\u00" ⧺ digit (n / 16) ⧺ digit (n % 16)
    else String.◌∷◌ c String.[]

escape_all : String → String
unfolding escape
escape_all String.[] = ""
escape_all (String.◌∷◌ c s) = escape c ⧺ escape_all s

quote : String → String
unfolding escape_all
quote s = "\"" ⧺ escape_all s ⧺ "\""

join : List String → String
join [] = ""
join (s ∷ []) = s
join (s ∷ t ∷ rest) = s ⧺ "," ⧺ join (t ∷ rest)

-- members keep their key beside their text until they are sorted
abbrev Member : Type 0
Member = String × String

key_le : Member → Member → Bool
unfolding str_le
key_le m n = str_le m.0 n.0

member_texts : List Member → List String
member_texts [] = []
member_texts ((k, t) ∷ ms) = t ∷ member_texts ms

module _ ⦃r : Runtime⦄ where
  -- `str(x)`
  unfoldable pub to_str : Json → String
  unfolding int_text
  to_str (str s) = s
  to_str null = "None"
  to_str (bool true) = "True"
  to_str (bool false) = "False"
  to_str (int z) = int_text z
  to_str x = r.repr x

  abbrev not_finite : Exn
  not_finite = value_error "Out of range float values are not JSON compliant"

  -- `allow_nan=False`
  strict_float : Float → Result String
  strict_float (finite s m) = ok (r.repr (float (finite s m)))
  strict_float (infinity s) = err not_finite
  strict_float nan = err not_finite

  -- the default, `allow_nan=True`
  lenient_float : Float → Result String
  lenient_float (finite s m) = ok (r.repr (float (finite s m)))
  lenient_float (infinity true) = ok "-Infinity"
  lenient_float (infinity false) = ok "Infinity"
  lenient_float nan = ok "NaN"

module _ ⦃r : Runtime⦄ (float_text : Float → Result String) where
  unfoldable mutual
    unfolding int_text quote join member_texts key_le sort

    pub dumps : Json → Result String
    dumps null = ok "null"
    dumps (bool true) = ok "true"
    dumps (bool false) = ok "false"
    dumps (int z) = ok (int_text z)
    dumps (float f) = float_text f
    dumps (str s) = ok (quote s)
    dumps (arr xs) = do ts ← item_texts xs; ok ("[" ⧺ join ts ⧺ "]")
    dumps (obj fs) = do ms ← members fs; ok ("{" ⧺ join (member_texts (sort key_le ms)) ⧺ "}")

    pub item_texts : Items → Result (List String)
    item_texts nil = ok []
    item_texts (cons x xs) = do t ← dumps x; ts ← item_texts xs; ok (t ∷ ts)

    pub members : Fields → Result (List (String × String))
    members end = ok []
    members (field k v fs) = do t ← dumps v; ms ← members fs; ok ((k, quote k ⧺ ":" ⧺ t) ∷ ms)

module _ ⦃r : Runtime⦄ where
  -- merge_shards.canonical
  unfoldable pub canonical : Json → Result String
  unfolding dumps strict_float
  canonical = dumps strict_float

  -- migrate_identity_state.frozen
  unfoldable pub frozen : Json → Result String
  unfolding dumps lenient_float
  frozen = dumps lenient_float
