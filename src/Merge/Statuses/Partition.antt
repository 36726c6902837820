-- ===== src/Merge/Statuses/Partition.antt =====
-- The counts of `status_summary` are disjoint and, but for unknown statuses, complete.
use resq.Base.{
  string_eq, eq_iff, ℕ, suc, ◌+◌, String, Bool, true, false, ◌||◌, List, [], ◌∷◌, length, contains,
  if◌then◌else◌, ◌≡◌, refl, sym, ◌∙◌, ◌==◌, arith,
}
use resq.Py.Value.{Json, null, bool, int, pos, negsuc, float, str, arr, obj, nat, object}
use resq.Py.Result.{ok, ok-injective, through}
use resq.Py.Access.{subscript}
use resq.Py.Equal.{is_text}
use resq.Py.Hash.{Atom, text, hashed, hashed_float-text, atom_eq}
use resq.Py.Loops.{length-map_m, filter_m}
use resq.Merge.Statuses.{count, is_skip, statuses_of, status_summary}

-- a status that a result can have
unfoldable pub is_known : Json → Bool
is_known status =
    is_text status "pass"
    || is_text status "fail"
    || is_text status "error"
    || is_text status "skip"
    || is_text status "pending"

unfoldable pub unknown : List Json → ℕ
unfolding is_known
unknown [] = 0
unknown (x ∷ xs) = let rest = unknown xs in if is_known x then rest else suc rest

no_text :
    (key : Atom)
    → (text "skip" == key) ≡ false
    → (text "pending" == key) ≡ false
    → contains key (text "skip" ∷ text "pending" ∷ []) ≡ false
unfolding contains
no_text key h k = rw (h, k) refl

is_skip-text :
    (status : Json) {b : Bool}
    → is_skip status ≡ ok b
    → b ≡ (is_text status "skip" || is_text status "pending")
unfolding is_skip hashed contains is_text
is_skip-text (str s) h =
    sym (ok-injective h)
    ∙ ground (arith, eq_iff "skip" s, eq_iff s "skip", eq_iff "pending" s, eq_iff s "pending")
is_skip-text null h = sym (ok-injective h)
is_skip-text (bool true) h = sym (ok-injective h)
is_skip-text (bool false) h = sym (ok-injective h)
is_skip-text (int (pos n)) h = sym (ok-injective h)
is_skip-text (int (negsuc n)) h = sym (ok-injective h)
is_skip-text (float f) h = through (hashed (float f)) _ h λ key hashes h₁.
    sym (ok-injective h₁)
    ∙ no_text key (hashed_float-text f "skip" hashes) (hashed_float-text f "pending" hashes)
is_skip-text (arr xs) h = cc
is_skip-text (obj fs) h = cc

-- A text is equal to one text at most.
one_text : (t a b : String) → (a == b) ≡ false → (t == a) ≡ true → (t == b) ≡ false
one_text t a b h k = rw ((eq_iff t a).0 k) h

-- One status counts once.
one_count :
    (status : Json)
    → (if is_text status "pass" then 1 else 0)
        + (if is_text status "fail" then 1 else 0)
        + (if is_text status "error" then 1 else 0)
        + (if is_text status "skip" || is_text status "pending" then 1 else 0)
        + (if is_known status then 0 else 1)
      ≡ 1
unfolding is_known is_text
one_count (str t) = ground (
  arith,
  one_text t "pass" "fail" refl,
  one_text t "pass" "error" refl,
  one_text t "pass" "skip" refl,
  one_text t "pass" "pending" refl,
  one_text t "fail" "error" refl,
  one_text t "fail" "skip" refl,
  one_text t "fail" "pending" refl,
  one_text t "error" "skip" refl,
  one_text t "error" "pending" refl,
)
one_count null = refl
one_count _ = refl

abbrev one : Bool → ℕ
one b = if b then 1 else 0

counts :
    (statuses skipped : List Json)
    → filter_m is_skip statuses ≡ ok skipped
    → count "pass" statuses
        + count "fail" statuses
        + count "error" statuses
        + length skipped
        + unknown statuses
      ≡ length statuses
unfolding count unknown filter_m
counts [] skipped h = rw (← (ok-injective h)) refl
counts (x ∷ xs) skipped h = through (is_skip x) _ h λ b skips h₁.
    through (filter_m is_skip xs) _ h₁ λ rest filtered h₂.
      rw (← (ok-injective h₂))
        (ground (arith, counts xs rest filtered, one_count x, is_skip-text x skips))

-- If status_summary returns, the test count is the number of rows, and it is the sum of the
-- four other counts and the number of rows whose status is none of pass, fail, error, skip and
-- pending.
pub status_summary-counts :
    (rows : List Json) (summary : Json)
    → status_summary rows ≡ ok summary
    → (statuses : List Json) × (passed failed errors skipped : ℕ) × (statuses_of rows ≡ ok statuses)
      × (summary
          ≡ object (
              ("testCount", nat (length rows))
              ∷ ("passCount", nat passed)
              ∷ ("failCount", nat failed)
              ∷ ("errorCount", nat errors)
              ∷ ("skipCount", nat skipped)
              ∷ []))
      × (passed + failed + errors + skipped + unknown statuses ≡ length rows)
unfolding status_summary statuses_of
status_summary-counts rows summary h = through (statuses_of rows) _ h λ statuses listed h₁.
    through (filter_m is_skip statuses) _ h₁ λ skipped filtered h₂. (
      statuses,
      count "pass" statuses,
      count "fail" statuses,
      count "error" statuses,
      length skipped,
      listed,
      sym (ok-injective h₂),
      counts statuses skipped filtered
          ∙ length-map_m (λ row. subscript row "status") rows statuses listed,
    )
