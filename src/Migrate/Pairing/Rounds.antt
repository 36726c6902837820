-- ===== src/Migrate/Pairing/Rounds.antt =====
-- The loops of `pair_maps`: what a pass over an index writes, and what the reverse pass checks.
use resq.Base.{string_eq, list_eq, String, [], Option, none, some, ◌≡◌, ap, All}
use resq.Py.Result.{ok, raise_if, bind-eq-ok, ok-injective, raise_if-eq-ok}
use resq.Py.Dict.{lookup, lookup-insert_self, insert_agreeing}
use resq.Py.Hash.{atom_eq}
use resq.Py.Loops.{fold_m, fold_m-All, fold_m_inv}
use resq.Migrate.Inventory.{Key, Index, conflicts, conflicts-eq-false}
use resq.Migrate.Pairing.{Mapping, at_key, pair_key, reverse_pair}

at_key-eq-ok : (o : Option String) {v : String} → at_key o ≡ ok v → o ≡ some v
at_key-eq-ok none h = cc
at_key-eq-ok (some w) h = ap some (ok-injective h)

-- the mapping has the new identity at a key's old one
pub record IsPaired (new_index : Index) (mapping : Mapping) (pair : Key × String) : Type 0 where
  pub new_id : String
  pub in_new : lookup pair.0 new_index ≡ some new_id
  pub mapped : lookup pair.1 mapping ≡ some new_id

module _ (new_index : Index) (mapping : Mapping) (pair : Key × String) {mapping' : Mapping}
    (step : pair_key new_index mapping pair ≡ ok mapping') where
  pair_key-IsPaired : IsPaired new_index mapping' pair
  unfolding pair_key
  pair_key-IsPaired =
      let (new_id, found, h₁) = bind-eq-ok (at_key (lookup pair.0 new_index)) _ step in
      let (u, free, h₂) = bind-eq-ok (raise_if (conflicts (lookup pair.1 mapping) new_id) _) _ h₁ in
      record {
        new_id = new_id;
        in_new = at_key-eq-ok _ found;
        mapped = written (ok-injective h₂) (lookup-insert_self pair.1 new_id mapping);
      }
    where
      written :
          {m : Mapping} {o : Option String}
          → m ≡ mapping'
          → lookup pair.1 m ≡ o
          → lookup pair.1 mapping' ≡ o
      written e at = rw (← e) at

  pub pair_key_keeps : (a i : String) → lookup a mapping ≡ some i → lookup a mapping' ≡ some i
  unfolding pair_key
  pair_key_keeps a i at =
      let (new_id, found, h₁) = bind-eq-ok (at_key (lookup pair.0 new_index)) _ step in
      let (u, free, h₂) = bind-eq-ok (raise_if (conflicts (lookup pair.1 mapping) new_id) _) _ h₁ in
      rw (← (ok-injective h₂)) (
        insert_agreeing pair.1 a new_id i mapping
          (conflicts-eq-false _ new_id (raise_if-eq-ok _ _ free)) at)

module _ (new_index : Index) where
  -- After a pass over an old index, each of its keys is paired.
  pub pass-IsPaired :
      (mapping : Mapping) (old_index : Index) (mapping' : Mapping)
      → fold_m (pair_key new_index) mapping old_index ≡ ok mapping'
      → All (IsPaired new_index mapping') old_index
  pass-IsPaired =
      fold_m-All (IsPaired new_index) (pair_key new_index)
        (λ s x s' e. pair_key-IsPaired new_index s x e)
        (λ y s x s' q e. record {
          new_id = q.new_id;
          in_new = q.in_new;
          mapped = pair_key_keeps new_index s x e y.1 q.new_id q.mapped;
        })

  -- A pass keeps what the mapping had.
  pub pass_keeps :
      (a i : String) (mapping : Mapping) (old_index : Index) (mapping' : Mapping)
      → lookup a mapping ≡ some i
      → fold_m (pair_key new_index) mapping old_index ≡ ok mapping'
      → lookup a mapping' ≡ some i
  pass_keeps a i =
      fold_m_inv (λ m. lookup a m ≡ some i) (pair_key new_index)
        (λ s x s' at e. pair_key_keeps new_index s x e a i at)

module _ (reverse : Mapping) (pair : String × String) {reverse' : Mapping}
    (step : reverse_pair reverse pair ≡ ok reverse') where
  reverse_pair_writes : lookup pair.1 reverse' ≡ some pair.0
  unfolding reverse_pair
  reverse_pair_writes =
      let (u, free, h) =
        bind-eq-ok (raise_if (conflicts (lookup pair.1 reverse) pair.0) _) _ step in
      rw (← (ok-injective h)) (lookup-insert_self pair.1 pair.0 reverse)

  reverse_pair_keeps : (a i : String) → lookup a reverse ≡ some i → lookup a reverse' ≡ some i
  unfolding reverse_pair
  reverse_pair_keeps a i at =
      let (u, free, h) =
        bind-eq-ok (raise_if (conflicts (lookup pair.1 reverse) pair.0) _) _ step in
      rw (← (ok-injective h)) (
        insert_agreeing pair.1 a pair.0 i reverse
          (conflicts-eq-false _ pair.0 (raise_if-eq-ok _ _ free)) at)

-- The reverse pass ends with every old identity at its new one.
pub reverse_pass :
    (mapping reverse : Mapping)
    → fold_m reverse_pair [] mapping ≡ ok reverse
    → All (λ pair. lookup pair.1 reverse ≡ some pair.0) mapping
reverse_pass mapping reverse =
    fold_m-All (λ r pair. lookup pair.1 r ≡ some pair.0) reverse_pair
      (λ s x s' e. reverse_pair_writes s x e) (λ y s x s' at e. reverse_pair_keeps s x e y.1 y.0 at)
      [] mapping reverse
