-- ===== src/Py/Running.antt =====
-- One name that opens the whole Python layer, for tests that run.
use resq.Base.{str_le, contains, to_set, distinct, subset, same_set}
use resq.Base.Sorting.{insort, sort}
use resq.Py.Value.{elements, of_elements, entries, of_entries}
use resq.Py.Dict.{lookup, insert, remove, keys, values}
use resq.Py.Access.{
  truthy, or_else, subscript, get, has_key, set_item, pop, iterate, is_dict, is_list, is_str,
  is_bool, is_int, nonempty_str, text_of,
}
use resq.Py.Equal.{py_eq, is_nat, is_text}
use resq.Py.Text.{to_str, canonical, frozen}
use resq.Py.Hash.{hashed}
use resq.Py.Loops.{fold_m, each, map_m, any_m, filter_by, filter_m}
use resq.Py.Order.{less, less_tuple, insort_m, sort_m, range_from, range_bound, in_range}

unfoldable pub python : Unit {0}
unfolding str_le contains to_set distinct subset same_set insort sort elements of_elements entries
    of_entries lookup insert remove keys values truthy or_else subscript get has_key set_item pop
    iterate is_dict is_list is_str is_bool is_int nonempty_str text_of py_eq is_nat is_text to_str
    canonical frozen hashed fold_m each map_m any_m filter_by filter_m less less_tuple insort_m
    sort_m range_from range_bound in_range
python = tt
