-- ===== src/Migrate/Pairing/Proof.antt =====
-- The mapping that `pair_maps` returns is proved by the two reports: it sends each identity of the
-- old report to the one of the same test in the new report, and no two to one.
use resq.Base.{string_eq, list_eq, String, [], ◌∷◌, some, ◌≡◌, sym, ◌∙◌, All, some-injective}
use resq.Py.Result.{ok, bind-eq-ok, ok-injective}
use resq.Py.Dict.{lookup, All-lookup}
use resq.Py.Hash.{atom_eq}
use resq.Py.Loops.{fold_m}
use resq.Migrate.Inventory.{Index}
use resq.Migrate.Pairing.{Mapping, pair_key, reverse_pair, pair_indexes}
use resq.Migrate.Pairing.Rounds.{IsPaired, pass-IsPaired, pass_keeps, reverse_pass}

-- what the loops over the four indexes establish
pub record IsProven (old_exec new_exec old_parent new_parent : Index) (mapping : Mapping)
    : Type 0 where
  pub cases : All (IsPaired new_exec mapping) old_exec
  pub tests : All (IsPaired new_parent mapping) old_parent
  pub apart : (a b i : String) → lookup a mapping ≡ some i → lookup b mapping ≡ some i → a ≡ b

IsPaired-grow :
    (new_index : Index) (m m' : Mapping) (old_index : Index)
    → ((a i : String) → lookup a m ≡ some i → lookup a m' ≡ some i)
    → All (IsPaired new_index m) old_index
    → All (IsPaired new_index m') old_index
IsPaired-grow new_index m m' [] keep h = tt
IsPaired-grow new_index m m' (p ∷ ps) keep h = (
  record { new_id = h.0.new_id; in_new = h.0.in_new; mapped = keep p.1 h.0.new_id h.0.mapped },
  IsPaired-grow new_index m m' ps keep h.1,
)

pub pair_indexes-IsProven :
    (old_exec new_exec old_parent new_parent : Index) (mapping : Mapping)
    → pair_indexes old_exec new_exec old_parent new_parent ≡ ok mapping
    → IsProven old_exec new_exec old_parent new_parent mapping
unfolding pair_indexes
pair_indexes-IsProven old_exec new_exec old_parent new_parent mapping h =
    let (m, first, h₁) = bind-eq-ok (fold_m (pair_key new_exec) [] old_exec) _ h in
    let (m', second, h₂) = bind-eq-ok (fold_m (pair_key new_parent) m old_parent) _ h₁ in
    let (reverse, third, h₃) = bind-eq-ok (fold_m reverse_pair [] m') _ h₂ in
    let back = reverse_pass m' reverse third in
    let at : (a i : String) → lookup a m' ≡ some i → lookup i reverse ≡ some a =
      λ a i. All-lookup (λ pair. lookup pair.1 reverse ≡ some pair.0) a i m' back in
    rw (← (ok-injective h₃)) (record {
      cases =
          IsPaired-grow new_exec m m' old_exec
            (λ a i p. pass_keeps new_parent a i m old_parent m' p second)
            (pass-IsPaired new_exec [] old_exec m first);
      tests = pass-IsPaired new_parent m old_parent m' second;
      apart = λ a b i p q. some-injective (sym (at a i p) ∙ at b i q);
    })
