-- ===== src/Coverage/Reads.antt =====
-- What a member is when it was read as a count, as a Boolean or as a percentage.
use resq.Base.{ℕ, List, String, Bool, some, ◌≡◌, ap, ◌∙◌}
use resq.Py.Value.{pos, negsuc, Json, null, bool, int, nat, obj}
use resq.Py.Result.{ok, ok-injective, err-ne-ok, through, past}
use resq.Py.Access.{subscript}
use resq.Py.Fields.{member, subscript-eq-ok}
use resq.Py.Checks.{as_count}
use resq.Coverage.{require, nonnegative_int, boolean, count_at, flag_at}

nonnegative_int-eq-ok : (x : Json) {n : ℕ} → nonnegative_int x ≡ ok n → x ≡ nat n
unfolding nonnegative_int as_count
nonnegative_int-eq-ok (int (pos n)) h = ap nat (ok-injective h)
nonnegative_int-eq-ok (int (negsuc n)) h = absurd (err-ne-ok h)
nonnegative_int-eq-ok null h = absurd (err-ne-ok h)
nonnegative_int-eq-ok _ h = absurd (err-ne-ok h)

boolean-eq-ok : (x : Json) {b : Bool} → boolean x ≡ ok b → x ≡ bool b
unfolding boolean
boolean-eq-ok (bool b) h = ap bool (ok-injective h)
boolean-eq-ok null h = absurd (err-ne-ok h)
boolean-eq-ok _ h = absurd (err-ne-ok h)

pub count_at-eq-ok :
    (x : Json) (k : String) {n : ℕ} → count_at x k ≡ ok n → member x k ≡ some (nat n)
unfolding count_at
count_at-eq-ok x k h =
    through (subscript x k) _ h
      λ m e h₁. subscript-eq-ok x k e ∙ ap some (nonnegative_int-eq-ok m h₁)

pub flag_at-eq-ok :
    (x : Json) (k : String) {b : Bool} → flag_at x k ≡ ok b → member x k ≡ some (bool b)
unfolding flag_at
flag_at-eq-ok x k h =
    through (subscript x k) _ h λ m e h₁. subscript-eq-ok x k e ∙ ap some (boolean-eq-ok m h₁)

pub require-same : (x : Json) (names : List String) {y : Json} → require x names ≡ ok y → x ≡ y
unfolding require
require-same (obj fs) names h = past _ _ _ h λ _ h₁. ok-injective h₁
require-same null names h = absurd (err-ne-ok h)
require-same _ names h = absurd (err-ne-ok h)
