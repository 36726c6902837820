-- ===== src/Migrate/Inventory/Indexing.antt =====
-- What `indexed` returns: every entry's identity stands at the entry's key.
use resq.Base.{
  string_eq, list_eq, String, true, false, not, List, [], Option, none, some, ◌≡◌, ap, arith, All,
  eq_true_of_not,
}
use resq.Py.Value.{Json, null, arr, elements}
use resq.Py.Result.{Result, ok, raise_if, bind-eq-ok, ok-injective, raise_if-eq-ok, through, past}
use resq.Py.Dict.{lookup, insert, lookup-insert_self, insert_agreeing, is_some}
use resq.Py.Access.{get, get_or, is_dict, is_list, subscript, iterate, nonempty_str}
use resq.Py.Fields.{member, get-eq-ok, subscript-eq-ok}
use resq.Py.Hash.{atom_eq}
use resq.Py.Loops.{fold_m-All}
use resq.Migrate.Inventory.{
  Key, Index, manifest, identified, conflicts, conflicts-eq-false, index_entry, indexed,
}

-- the identity that an entry states
abbrev pub identity : String → Json → Option String
identity id_field raw = nonempty_str (get_or (member raw id_field) null)

identified-eq-ok :
    (o : Option String) (what : String) {i : String} → identified o what ≡ ok i → o ≡ some i
identified-eq-ok none what h = cc
identified-eq-ok (some j) what h = ap some (ok-injective h)

module _ (key_fn : Json → Result Key) (id_field : String) where
  pub record IsIndexed (index : Index) (raw : Json) : Type 0 where
    pub key : Key
    pub identifier : String
    pub has_key : key_fn raw ≡ ok key
    pub has_id : identity id_field raw ≡ some identifier
    pub at : lookup key index ≡ some identifier

  -- what a round that does not raise has found and done
  record Round (index : Index) (raw : Json) (index' : Index) : Type 0 where
    key : Key
    identifier : String
    has_key : key_fn raw ≡ ok key
    has_id : identity id_field raw ≡ some identifier
    agrees : conflicts (lookup key index) identifier ≡ false
    result : insert key identifier index ≡ index'

  index_entry-Round :
      (index : Index) (raw : Json) (index' : Index)
      → index_entry key_fn id_field index raw ≡ ok index'
      → Round index raw index'
  unfolding index_entry
  index_entry-Round index raw index' h =
      let (u, _, h₁) = bind-eq-ok (raise_if (not (is_dict raw)) _) _ h in
      let (value, got, h₂) = bind-eq-ok (get raw id_field null) _ h₁ in
      let (identifier, named, h₃) = bind-eq-ok (identified (nonempty_str value) _) _ h₂ in
      let (key, keyed, h₄) = bind-eq-ok (key_fn raw) _ h₃ in
      let (v, free, h₅) = bind-eq-ok (raise_if (conflicts (lookup key index) identifier) _) _ h₄ in
      record {
        key = key;
        identifier = identifier;
        has_key = keyed;
        has_id =
            rw (← (get-eq-ok raw id_field null got))
              (identified-eq-ok (nonempty_str value) _ named);
        agrees = raise_if-eq-ok _ _ free;
        result = ok-injective h₅;
      }

  Round-at : {index index' : Index} {raw : Json} → Round index raw index' → IsIndexed index' raw
  Round-at {index} r = record {
    key = r.key;
    identifier = r.identifier;
    has_key = r.has_key;
    has_id = r.has_id;
    at = rw (← r.result) (lookup-insert_self r.key r.identifier index);
  }

  Round-keeps :
      (index : Index) (raw : Json) (index' : Index) (j : Key) (i : String)
      → Round index raw index'
      → lookup j index ≡ some i
      → lookup j index' ≡ some i
  Round-keeps index raw index' j i r at = rw (← r.result) (
      insert_agreeing r.key j r.identifier i index
        (conflicts-eq-false (lookup r.key index) r.identifier r.agrees) at)

-- If `indexed` returns, every entry has a key and an identity, and the index has the one at the other.
pub indexed-IsIndexed :
    (key_fn : Json → Result Key) (id_field : String) (raws : List Json) (index : Index)
    → indexed key_fn id_field raws ≡ ok index
    → All (IsIndexed key_fn id_field index) raws
unfolding indexed
indexed-IsIndexed key_fn id_field raws index h =
    fold_m-All (IsIndexed key_fn id_field) (index_entry key_fn id_field)
      (λ s x s' e. Round-at key_fn id_field (index_entry-Round key_fn id_field s x s' e))
      (λ y s x s' q e. record {
        key = q.key;
        identifier = q.identifier;
        has_key = q.has_key;
        has_id = q.has_id;
        at =
            Round-keeps key_fn id_field s x s' q.key q.identifier
              (index_entry-Round key_fn id_field s x s' e) q.at;
      })
      [] raws index h

abbrev list_of : Option Json → List Json
list_of (some (arr xs)) = elements xs
list_of none = []
list_of _ = []

-- the entries of a report's manifest
abbrev pub manifest_tests : Json → List Json
manifest_tests report = list_of (member (get_or (member report "manifest") null) "tests")

iterate_tests :
    (o : Option Json) {t : Json} {es : List Json}
    → is_list (get_or o null) ≡ true
    → o ≡ some t
    → iterate t ≡ ok es
    → es ≡ list_of o
unfolding is_list iterate
iterate_tests (some (arr xs)) l h k = ground (arith)
iterate_tests none l h k = cc
iterate_tests (some null) l h k = cc
iterate_tests (some _) l h k = cc

-- The entries that `pair_maps` reads from a manifest.
pub manifest-tests :
    (report : Json) {m t : Json} {es : List Json}
    → manifest report ≡ ok m
    → subscript m "tests" ≡ ok t
    → iterate t ≡ ok es
    → es ≡ manifest_tests report
unfolding manifest
manifest-tests report {m} h s k = through (get report "manifest" null) _ h λ value got h₁.
    past (not (is_dict value)) _ _ h₁ λ _ h₂. through (get value "tests" null) _ h₂ λ tests got' h₃.
      past (not (is_list tests)) _ _ h₃ λ listed h₄.
        through (get value "identityAlgorithm" null) _ h₄ λ algorithm _ h₅.
          past (not (is_some (nonempty_str algorithm))) _ _ h₅ λ _ h₆.
            rw (← (get-eq-ok report "manifest" null got)) (
              iterate_tests (member value "tests")
                (rw (← (get-eq-ok value "tests" null got')) (eq_true_of_not (is_list tests) listed))
                (rw (ok-injective h₆) (subscript-eq-ok m "tests" s)) k)
