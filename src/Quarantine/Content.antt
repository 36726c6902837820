-- ===== src/Quarantine/Content.antt =====
-- tools/update_quarantine.py: what the entry of a test holds.
use mathlib.Core.Path.{subst}
use resq.Base.{
  string_eq, ◌||◌, arith, eq_iff, String, Bool, true, false, List, [], ◌∷◌, Option, none, some,
  some-injective, ◌==◌, contains, ◌≡◌, refl, sym, ap, ◌∙◌, Bool-cases, inl, inr,
}
use resq.Py.Value.{Json, null, str, obj, object, entries, of_entries}
use resq.Py.Result.{ok, ok-injective, through}
use resq.Py.Dict.{lookup, insert, keys, lookup-insert, contains-keys-insert}
use resq.Py.Access.{get, get_or, subscript, found, truthy, or_else, text_of}
use resq.Py.Fields.{member, get-eq-ok, subscript-eq-ok}
use resq.Py.Loops.{fold_m}
use resq.Py.Rows.{IsIn, says, text_is}
use resq.Quarantine.{Rows, Options, add_available, add_existing, existing_from, test_id_of, renew}
use resq.Quarantine.Renewal.{entry_after}

text_of-eq-ok : (x : Json) {t : String} → text_of x ≡ ok t → x ≡ str t
unfolding text_of
text_of-eq-ok (str s) h = ap str (ok-injective h)
text_of-eq-ok null h = cc
text_of-eq-ok _ h = cc

pub found-eq-ok : (k : String) (o : Option Json) {v : Json} → found k o ≡ ok v → o ≡ some v
found-eq-ok k none h = cc
found-eq-ok k (some w) h = ap some (ok-injective h)

-- every row stands under its own test, and is one of `all`
abbrev pub AreNamed : List Json → Rows → Type 0
AreNamed all rows =
    (i : String) (row : Json)
    → lookup i rows ≡ some row
    → (member row "testId" ≡ some (str i)) × IsIn row all

insert-AreNamed :
    (all : List Json) (i : String) (row : Json) (rows : Rows)
    → (member row "testId" ≡ some (str i)) × IsIn row all
    → AreNamed all rows
    → AreNamed all (insert i row rows)
insert-AreNamed all i row rows own named j other h = elim (Bool-cases (i == j)) [
  | inl e ↦
      let at = rw e at (sym (lookup-insert i j row rows) ∙ h) in
      rw (← ((eq_iff i j).0 e), ← (some-injective at)) own
  | inr e ↦ named j other (rw e at (sym (lookup-insert i j row rows) ∙ h))
]

test_id_of-eq-ok :
    (row : Json) {i : String} → test_id_of row ≡ ok i → member row "testId" ≡ some (str i)
unfolding test_id_of text_of
test_id_of-eq-ok row h =
    through (subscript row "testId") _ h
      λ v at h₁. subscript-eq-ok row "testId" at ∙ ap some (text_of-eq-ok v h₁)

add_available-AreNamed :
    (all : List Json) (rows : Rows) (row : Json) (rows' : Rows)
    → IsIn row all
    → AreNamed all rows
    → add_available rows row ≡ ok rows'
    → AreNamed all rows'
unfolding add_available
add_available-AreNamed all rows row rows' inside named h = through (test_id_of row) _ h λ i own h₁.
    subst (AreNamed all) (ok-injective h₁)
      (insert-AreNamed all i row rows (test_id_of-eq-ok row own, inside) named)

loop-AreNamed :
    (all list : List Json) (rows available : Rows)
    → ((x : Json) → IsIn x list → IsIn x all)
    → AreNamed all rows
    → fold_m add_available rows list ≡ ok available
    → AreNamed all available
unfolding fold_m
loop-AreNamed all [] rows available inside named h = subst (AreNamed all) (ok-injective h) named
loop-AreNamed all (row ∷ list) rows available inside named h =
    through (add_available rows row) _ h λ next step rest.
      loop-AreNamed all list next available (λ x q. inside x (inr q))
        (add_available-AreNamed all rows row next (inside row (inl refl)) named step) rest

-- The proposal of a test is one of the proposals, for that test.
pub available-AreNamed :
    (proposals : List Json) (available : Rows)
    → fold_m add_available [] proposals ≡ ok available
    → AreNamed proposals available
unfolding lookup
available-AreNamed proposals available h =
    loop-AreNamed proposals proposals [] available (λ x q. q) (λ i row e. cc) h

add_existing-AreNamed :
    (all : List Json) (entry : Json) (o : Option Json) (rows : Rows)
    → member entry "testId" ≡ o
    → IsIn entry all
    → AreNamed all rows
    → AreNamed all (add_existing entry o rows)
unfolding add_existing
add_existing-AreNamed all entry (some (str i)) rows own inside named =
    insert-AreNamed all i entry rows (own, inside) named
add_existing-AreNamed all entry none rows own inside named = named
add_existing-AreNamed all entry (some null) rows own inside named = named
add_existing-AreNamed all entry (some _) rows own inside named = named

existing_from-named :
    (all list : List Json) (rows : Rows)
    → ((x : Json) → IsIn x list → IsIn x all)
    → AreNamed all rows
    → AreNamed all (existing_from list rows)
unfolding existing_from
existing_from-named all [] rows inside named = named
existing_from-named all (obj fs ∷ list) rows inside named =
    existing_from-named all list (add_existing (obj fs) (lookup "testId" (entries fs)) rows)
      (λ x q. inside x (inr q))
      (add_existing-AreNamed all (obj fs) (lookup "testId" (entries fs)) rows refl
        (inside (obj fs) (inl refl)) named)
existing_from-named all (null ∷ list) rows inside named =
    existing_from-named all list rows (λ x q. inside x (inr q)) named
existing_from-named all (_ ∷ list) rows inside named =
    existing_from-named all list rows (λ x q. inside x (inr q)) named

-- So is the entry that a test had.
pub existing_from-AreNamed : (list : List Json) → AreNamed list (existing_from list [])
unfolding lookup
existing_from-AreNamed list = existing_from-named list list [] (λ x q. q) (λ i row e. cc)

-- some row is for the test
abbrev pub is_named : String → List Json → Bool
is_named i [] = false
is_named i (row ∷ rows) = says row "testId" i || is_named i rows

add_existing-keys :
    (entry : Json) (o : Option Json) (rows : Rows) (i : String)
    → contains i (keys (add_existing entry o rows)) ≡ (contains i (keys rows) || text_is o i)
unfolding add_existing
add_existing-keys entry (some (str t)) rows i = ground (arith, contains-keys-insert t i entry rows)
add_existing-keys entry none rows i = ground arith
add_existing-keys entry (some null) rows i = ground arith
add_existing-keys entry (some _) rows i = ground arith

or_assoc : (a b c : Bool) → ((a || b) || c) ≡ (a || (b || c))
or_assoc a b c = ground arith

existing_from-keys :
    (list : List Json) (rows : Rows) (i : String)
    → contains i (keys (existing_from list rows)) ≡ (contains i (keys rows) || is_named i list)
unfolding existing_from
existing_from-keys [] rows i = ground arith
existing_from-keys (obj fs ∷ list) rows i =
    let o = lookup "testId" (entries fs) in
    existing_from-keys list (add_existing (obj fs) o rows) i
    ∙ ap (λ b. b || is_named i list) (add_existing-keys (obj fs) o rows i)
    ∙ or_assoc (contains i (keys rows)) (text_is o i) (is_named i list)
existing_from-keys (null ∷ list) rows i = existing_from-keys list rows i
existing_from-keys (_ ∷ list) rows i = existing_from-keys list rows i

-- A manifest has an entry for the tests that its rows are for.
pub existing_from-is_named :
    (list : List Json) (i : String) → contains i (keys (existing_from list [])) ≡ is_named i list
unfolding keys contains
existing_from-is_named list i = existing_from-keys list [] i

-- the time of the creation of an old entry, or None
abbrev pub creation : Option Json → Json
creation old = get_or (member (get_or old (object [])) "createdAt") null

-- the members of the entry of a selected test
pub record Renewed (options : Options) (now : String) (proposal : Json) (old : Option Json)
    (i : String) (row : Json) : Type 0 where
  test_id : member row "testId" ≡ some (str i)
  owner : member row "owner" ≡ some (str options.owner)
  reason : member row "reason" ≡ some (str options.reason)
  evidence : member row "evidence" ≡ some (get_or (member proposal "evidence") (object []))
  issue : member row "issue" ≡ some (str options.issue)
  expires_at : member row "expiresAt" ≡ some (str options.expires)
  keeps_creation : truthy (creation old) ≡ true → member row "createdAt" ≡ some (creation old)
  is_created : truthy (creation old) ≡ false → member row "createdAt" ≡ some (str now)

renew-Renewed :
    (options : Options) (now : String) (available : Rows) (i : String) (old : Option Json)
    {row : Json}
    → renew options now available i old ≡ ok row
    → (proposal : Json) × (lookup i available ≡ some proposal)
      × Renewed options now proposal old i row
unfolding renew or_else lookup entries of_entries
renew-Renewed options now available i old h =
    through (found i (lookup i available)) _ h λ proposal at h₁.
      through (get proposal "evidence" (object [])) _ h₁ λ evidence e h₂.
        through (get (get_or old (object [])) "createdAt" null) _ h₂ λ created c h₃.
          rw (← (ok-injective h₃)) (
            proposal,
            found-eq-ok i (lookup i available) at,
            record {
              test_id = refl;
              owner = refl;
              reason = refl;
              evidence = ap some (get-eq-ok proposal "evidence" (object []) e);
              issue = refl;
              expires_at = refl;
              keeps_creation =
                  λ t. rw (get-eq-ok (get_or old (object [])) "createdAt" null c, t) refl;
              is_created = λ t. rw (get-eq-ok (get_or old (object [])) "createdAt" null c, t) refl;
            },
          )

-- what the entry of a test is: renewed if the test is selected, and else as it was
abbrev pub IsEntry : Options → String → Rows → Rows → List String → String → Json → Type 0
IsEntry options now available existing selected i row =
    (contains i selected ≡ true
      → (proposal : Json) × (lookup i available ≡ some proposal)
        × Renewed options now proposal (lookup i existing) i row)
    × (contains i selected ≡ false → lookup i existing ≡ some row)

pub entry_after-IsEntry :
    (options : Options) (now : String) (available existing : Rows) (selected : List String)
    (i : String) (row : Json)
    → entry_after options now available existing selected i ≡ ok row
    → IsEntry options now available existing selected i row
unfolding entry_after
entry_after-IsEntry options now available existing selected i row h = (
  λ q. renew-Renewed options now available i (lookup i existing) (rw q at h),
  λ q. found-eq-ok i (lookup i existing) (rw q at h),
)
