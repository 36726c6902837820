-- ===== src/Report/Numbers.antt =====
-- tools/validate_report.py: reject_non_finite_numbers and validate_canonical_value_envelopes.
use resq.Base.{
  string_eq, String, Bool, true, not, List, [], ◌∷◌, ◌≡◌, ◌↔◌, refl, if◌then◌else◌, same_set,
  eq_true_of_not,
}
use resq.Py.Value.{Json, null, float, arr, obj, Items, nil, cons, Fields, end, field, entries}
use resq.Py.Result.{Result, ok, ◌>>=◌, ◌>>◌, through, raise_if-eq-ok}
use resq.Py.Dict.{keys}
use resq.Py.Access.{subscript, get, is_dict, nonempty_str}
use resq.Py.Equal.{is_nat, is_text}
use resq.Py.Dict.{is_some}
use resq.Py.Checks.{refuse_if}
use resq.Py.Floats.{is_finite}
use resq.Report.{expect_nat, expect_str}

unfoldable mutual
  unfolding is_finite

  pub reject_non_finite_numbers : Json → Result (Unit {0})
  reject_non_finite_numbers (float f) =
      refuse_if (not (is_finite f)) "non-finite number is not valid JSON evidence"
  reject_non_finite_numbers (obj fs) = reject_members fs
  reject_non_finite_numbers (arr xs) = reject_items xs
  reject_non_finite_numbers null = ok tt
  reject_non_finite_numbers _ = ok tt

  pub reject_items : Items → Result (Unit {0})
  reject_items nil = ok tt
  reject_items (cons x xs) = do reject_non_finite_numbers x; reject_items xs

  pub reject_members : Fields → Result (Unit {0})
  reject_members end = ok tt
  reject_members (field k v fs) = do reject_non_finite_numbers v; reject_members fs

abbrev envelope_fields : List String
envelope_fields = "schemaVersion" ∷ "kind" ∷ "codec" ∷ "canonicalBytes" ∷ "rendered" ∷ []

-- `x.get(name) == s`
unfoldable pub has_text : Json → String → String → Result Bool
unfolding get is_text
has_text x name s = do v ← get x name null; ok (is_text v s)

unfoldable pub expect_got : Json → String → String → Result (Unit {0})
unfolding has_text
expect_got x name s = do
  same ← has_text x name s
  refuse_if (not same) "unsupported canonical-value envelope"

unfoldable pub expect_identity : Json → String → Result (Unit {0})
unfolding get nonempty_str
expect_identity codec name = do
  v ← get codec name null
  refuse_if (not (is_some (nonempty_str v))) "missing q serialization identity"

unfoldable pub validate_envelope : Fields → Result (Unit {0})
unfolding same_set expect_nat subscript is_dict expect_got get is_nat expect_identity expect_str
validate_envelope fs = do
  let value = obj fs
  refuse_if (not (same_set (keys (entries fs)) envelope_fields))
      "malformed canonical-value envelope"
  expect_nat value "schemaVersion" 1 "malformed canonical-value envelope"
  codec ← subscript value "codec"
  refuse_if (not (is_dict codec)) "unsupported canonical-value envelope"
  expect_got codec "name" "resq-value-v1+q-ipc-leaves"
  version ← get codec "version" null
  refuse_if (not (is_nat version 1)) "unsupported canonical-value envelope"
  expect_got codec "ipcSerialization" "q unary -8!/-9!"
  expect_got codec "capabilityLevel"
      "local unary serialization; no negotiated IPC connection capability"
  expect_identity codec "qVersion"
  expect_identity codec "qRelease"
  expect_str value "canonicalBytes"
  expect_str value "rendered"

unfoldable mutual
  unfolding has_text validate_envelope

  pub validate_canonical_value_envelopes : Json → Result (Unit {0})
  validate_canonical_value_envelopes (obj fs) = do
    envelope ← has_text (obj fs) "kind" "resq-canonical-value"
    let nested = envelopes_in_members fs
    if envelope then validate_envelope fs else nested
  validate_canonical_value_envelopes (arr xs) = envelopes_in_items xs
  validate_canonical_value_envelopes null = ok tt
  validate_canonical_value_envelopes _ = ok tt

  pub envelopes_in_items : Items → Result (Unit {0})
  envelopes_in_items nil = ok tt
  envelopes_in_items (cons x xs) = do validate_canonical_value_envelopes x; envelopes_in_items xs

  pub envelopes_in_members : Fields → Result (Unit {0})
  envelopes_in_members end = ok tt
  envelopes_in_members (field k v fs) = do
    validate_canonical_value_envelopes v
    envelopes_in_members fs

-- Every float in a value, at any depth, is finite.
unfoldable mutual
  pub AllFinite : Json → Type 0
  AllFinite (float f) = is_finite f ≡ true
  AllFinite (obj fs) = MembersFinite fs
  AllFinite (arr xs) = ItemsFinite xs
  AllFinite null = Unit
  AllFinite _ = Unit

  pub ItemsFinite : Items → Type 0
  ItemsFinite nil = Unit
  ItemsFinite (cons x xs) = AllFinite x × ItemsFinite xs

  pub MembersFinite : Fields → Type 0
  MembersFinite end = Unit
  MembersFinite (field k v fs) = AllFinite v × MembersFinite fs

mutual
  unfolding reject_non_finite_numbers AllFinite

  pub reject_non_finite_numbers-AllFinite :
      (x : Json) → reject_non_finite_numbers x ≡ ok tt → AllFinite x
  reject_non_finite_numbers-AllFinite (float f) h =
      eq_true_of_not (is_finite f) (raise_if-eq-ok _ _ h)
  reject_non_finite_numbers-AllFinite (obj fs) h = reject_members-MembersFinite fs h
  reject_non_finite_numbers-AllFinite (arr xs) h = reject_items-ItemsFinite xs h
  reject_non_finite_numbers-AllFinite null h = tt
  reject_non_finite_numbers-AllFinite _ h = tt

  reject_items-ItemsFinite : (xs : Items) → reject_items xs ≡ ok tt → ItemsFinite xs
  reject_items-ItemsFinite nil h = tt
  reject_items-ItemsFinite (cons x xs) h =
      through (reject_non_finite_numbers x) _ h
        λ _ e h₁. (reject_non_finite_numbers-AllFinite x e, reject_items-ItemsFinite xs h₁)

  reject_members-MembersFinite : (fs : Fields) → reject_members fs ≡ ok tt → MembersFinite fs
  reject_members-MembersFinite end h = tt
  reject_members-MembersFinite (field k v fs) h =
      through (reject_non_finite_numbers v) _ h
        λ _ e h₁. (reject_non_finite_numbers-AllFinite v e, reject_members-MembersFinite fs h₁)

accepted : (b : Bool) (message : String) → b ≡ true → refuse_if (not b) message ≡ ok tt
accepted b message h = rw h refl

mutual
  unfolding reject_non_finite_numbers AllFinite

  reject_non_finite_numbers_accepts : (x : Json) → AllFinite x → reject_non_finite_numbers x ≡ ok tt
  reject_non_finite_numbers_accepts (float f) h = accepted (is_finite f) _ h
  reject_non_finite_numbers_accepts (obj fs) h = reject_members_accepts fs h
  reject_non_finite_numbers_accepts (arr xs) h = reject_items_accepts xs h
  reject_non_finite_numbers_accepts null h = refl
  reject_non_finite_numbers_accepts _ h = refl

  reject_items_accepts : (xs : Items) → ItemsFinite xs → reject_items xs ≡ ok tt
  reject_items_accepts nil h = refl
  reject_items_accepts (cons x xs) h =
      rw (reject_non_finite_numbers_accepts x h.0) (reject_items_accepts xs h.1)

  reject_members_accepts : (fs : Fields) → MembersFinite fs → reject_members fs ≡ ok tt
  reject_members_accepts end h = refl
  reject_members_accepts (field k v fs) h =
      rw (reject_non_finite_numbers_accepts v h.0) (reject_members_accepts fs h.1)

pub reject_non_finite_numbers_iff : (x : Json) → (reject_non_finite_numbers x ≡ ok tt) ↔ AllFinite x
reject_non_finite_numbers_iff x =
    (reject_non_finite_numbers-AllFinite x, reject_non_finite_numbers_accepts x)
