-- ===== src/Report/Refusals.antt =====
-- What validate refuses whatever else a document holds.
use resq.Base.{string_eq, Bool, true, not, ◌≡◌, refl, ◌⊎◌, Bool-cases, inl, inr}
use resq.Py.Value.{Json, null, obj, float, arr, Items, nil, cons, Fields, end, field}
use resq.Py.Result.{Exn, Result, ok, err, value_error, ◌>>◌}
use resq.Py.Access.{is_dict}
use resq.Py.Hash.{atom_eq}
use resq.Py.Checks.{refuse_if}
use resq.Py.Floats.{is_finite}
use resq.Py.Text.{Runtime}
use resq.Report.Numbers.{
  AllFinite, reject_non_finite_numbers, reject_items, reject_members,
  reject_non_finite_numbers-AllFinite,
}
use resq.Report.Validate.{validate, validate_finite}

-- the refusal of a number that is not finite
abbrev pub non_finite : Exn
non_finite = value_error "non-finite number is not valid JSON evidence"

mutual
  unfolding reject_non_finite_numbers

  settles :
      (x : Json)
      → (reject_non_finite_numbers x ≡ ok tt) ⊎ (reject_non_finite_numbers x ≡ err non_finite)
  settles (float f) = elim (Bool-cases (is_finite f)) [
    | inl e ↦ inl (rw e refl)
    | inr e ↦ inr (rw e refl)
  ]
  settles (obj fs) = settles_members fs
  settles (arr xs) = settles_items xs
  settles null = inl refl
  settles _ = inl refl

  settles_items : (xs : Items) → (reject_items xs ≡ ok tt) ⊎ (reject_items xs ≡ err non_finite)
  settles_items nil = inl refl
  settles_items (cons x xs) = elim (settles x) [
    | inl e ↦ rw e (settles_items xs)
    | inr e ↦ inr (rw e refl)
  ]

  settles_members :
      (fs : Fields) → (reject_members fs ≡ ok tt) ⊎ (reject_members fs ≡ err non_finite)
  settles_members end = inl refl
  settles_members (field k v fs) = elim (settles v) [
    | inl e ↦ rw e (settles_members fs)
    | inr e ↦ inr (rw e refl)
  ]

refused :
    (b : Bool) (m rest : Result (Unit {0})) (e : Exn)
    → b ≡ true
    → m ≡ err e
    → (refuse_if (not b) "expected object" >> (m >> rest)) ≡ err e
refused b m rest e h k = rw (h, k) refl

module _ ⦃r : Runtime⦄ where
  -- validate raises the ValueError for numbers that are not finite on every document that is
  -- an object and holds, at any depth, a float that is not finite, whatever else the document
  -- holds.
  pub validate_refuses :
      (x : Json) → is_dict x ≡ true → (AllFinite x → ⊥) → validate x ≡ err non_finite
  unfolding validate
  validate_refuses x d infinite = elim (settles x) [
    | inl e ↦ absurd (infinite (reject_non_finite_numbers-AllFinite x e))
    | inr e ↦ refused (is_dict x) (reject_non_finite_numbers x) (validate_finite x) non_finite d e
  ]
