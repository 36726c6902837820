-- ===== src/Py/Samples.antt =====
-- Runs of the Python layer on small values.
use resq.Base.{none, some, true, [], ◌∷◌, ◌≡◌, refl}
use resq.Py.Value.{
  Json, null, bool, int, str, negsuc, pos, nat, object, array, of_entries, of_elements,
}
use resq.Py.Result.{ok}
use resq.Py.Text.{Runtime, canonical}
use resq.Py.Equal.{py_eq}

instance abbrev pub plain : Runtime
plain = record {
  repr = λ x. "?";
  read_float = λ s. none;
  read_int = λ s. none;
  read_time = λ s. some (some (pos 0));
  is_decimal = λ c. true;
}

abbrev mixed : Json
mixed =
    object
      (("b", nat 120) ∷ ("a", array (bool true ∷ null ∷ str "x\"y" ∷ int (negsuc 6) ∷ [])) ∷ [])

canonical_sorts : canonical mixed ≡ ok "{\"a\":[true,null,\"x\\\"y\",-7],\"b\":120}"
unfolding canonical of_entries of_elements
canonical_sorts = refl

true_is_one : py_eq (bool true) (nat 1) ≡ true
unfolding py_eq
true_is_one = refl
