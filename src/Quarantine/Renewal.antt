-- ===== src/Quarantine/Renewal.antt =====
-- The loop of `build_manifest` that renews the entries of the selected tests.
use resq.Base.{
  string_eq, eq_iff, String, true, false, ◌||◌, List, [], ◌∷◌, some, ◌==◌, contains, distinct,
  if◌then◌else◌, ◌≡◌, refl, ap, ◌∙◌, arith, Bool-cases, inl, inr,
}
use resq.Py.Value.{Json}
use resq.Py.Result.{Result, ok, ok-injective, through, ◌>>=◌}
use resq.Py.Dict.{lookup, insert, keys, lookup-insert, contains-keys-insert, distinct-keys-insert}
use resq.Py.Access.{found}
use resq.Py.Loops.{fold_m}
use resq.Quarantine.{Rows, Options, renew, renew_entry}

module _ (options : Options) (now : String) where
  -- What becomes of a test of the manifest: a selected one is renewed, and any other is as it was.
  unfoldable pub entry_after : Rows → Rows → List String → String → Result Json
  unfolding renew contains
  entry_after available existing selected test_id =
      if contains test_id selected
      then renew options now available test_id (lookup test_id existing)
      else found test_id (lookup test_id existing)

  step_after :
      (available existing : Rows) (first : String) (selected : List String) (i : String)
      (entry row : Json)
      → contains first selected ≡ false
      → renew options now available first (lookup first existing) ≡ ok entry
      → entry_after available (insert first entry existing) selected i ≡ ok row
      → entry_after available existing (first ∷ selected) i ≡ ok row
  unfolding entry_after contains
  step_after available existing first selected i entry row fresh own h =
      elim (Bool-cases (first == i)) [
        | inl e ↦
            let same = (eq_iff first i).0 e in
            let h₁ =
              rw
                (
                  ← same,
                  fresh,
                  lookup-insert first first entry existing,
                  (eq_iff first first).1 refl,
                )
                at h in
            rw (e, ← same) (own ∙ h₁)
        | inr e ↦ rw e (rw (lookup-insert first i entry existing, e) at h)
      ]

  pub renewed-after :
      (available : Rows) (selected : List String) (existing final : Rows) (i : String) (row : Json)
      → distinct selected ≡ true
      → fold_m (renew_entry options now available) existing selected ≡ ok final
      → lookup i final ≡ some row
      → entry_after available existing selected i ≡ ok row
  unfolding fold_m renew_entry distinct entry_after contains
  renewed-after available [] existing final i row once h at =
      rw (rw (← (ok-injective h)) at at) refl
  renewed-after available (first ∷ selected) existing final i row once h at =
      through
        (renew options now available first (lookup first existing) >>= λ e.
          ok (insert first e existing))
        _ h
        λ next step rest.
          through (renew options now available first (lookup first existing)) _ step
            λ entry own step₁.
              step_after available existing first selected i entry row (ground (arith, once)) own (
                renewed-after available selected (insert first entry existing) final i row
                  (ground (arith, once)) (rw (← (ok-injective step₁)) at rest) at)

  pub renewed-keys :
      (available : Rows) (selected : List String) (existing final : Rows) (i : String)
      → fold_m (renew_entry options now available) existing selected ≡ ok final
      → contains i (keys final) ≡ (contains i (keys existing) || contains i selected)
  unfolding fold_m renew_entry contains
  renewed-keys available [] existing final i h = rw (← (ok-injective h)) (ground arith)
  renewed-keys available (first ∷ selected) existing final i h =
      through
        (renew options now available first (lookup first existing) >>= λ e.
          ok (insert first e existing))
        _ h
        λ next step rest.
          through (renew options now available first (lookup first existing)) _ step
            λ entry own step₁.
              let ih = renewed-keys available selected next final i rest in
              ground (
                arith,
                ih,
                ap (λ d. contains i (keys d)) (ok-injective step₁),
                contains-keys-insert first i entry existing,
              )

  pub renewed-distinct :
      (available : Rows) (selected : List String) (existing final : Rows)
      → fold_m (renew_entry options now available) existing selected ≡ ok final
      → distinct (keys existing) ≡ true
      → distinct (keys final) ≡ true
  unfolding fold_m renew_entry
  renewed-distinct available [] existing final h once = rw (← (ok-injective h)) once
  renewed-distinct available (first ∷ selected) existing final h once =
      through
        (renew options now available first (lookup first existing) >>= λ e.
          ok (insert first e existing))
        _ h
        λ next step rest.
          through (renew options now available first (lookup first existing)) _ step
            λ entry own step₁.
              renewed-distinct available selected next final rest
                (rw (ok-injective step₁) at (distinct-keys-insert first entry existing once))

  pub entry_after-same :
      (available existing : Rows) (selected selected' : List String) (i : String)
      → contains i selected' ≡ contains i selected
      → entry_after available existing selected' i ≡ entry_after available existing selected i
  unfolding entry_after
  entry_after-same available existing selected selected' i same = rw same refl
