-- ===== src/Merge/Ownership/Snapshots.antt =====
-- What `validate_snapshot_ownership` establishes.
use Prim.Native.Nat.{ℕ}
use resq.Base.{
  string_eq, pair_eq, eq_iff, String, false, List, [], ◌∷◌, Option, none, some, ◌≡◌, refl, sym, ◌∙◌,
  arith, All, All-get_elem?, get_elem?, some-injective, inl, inr, ◌⊎◌,
}
use resq.Py.Value.{Json, arr, nil}
use resq.Py.Result.{Result, ok, ok-injective, through, past, ◌>>=◌}
use resq.Py.Dict.{lookup, insert_agreeing, lookup-insert_self}
use resq.Py.Access.{get, iterate}
use resq.Py.Text.{Runtime}
use resq.Py.Loops.{fold_m, fold_m-All, fold_m_inv}
use resq.Merge.Shared.{execution_id}
use resq.Merge.Ownership.{
  SnapshotKey, Owners, by_other, snapshot_key, own_snapshot, own_row, validate_snapshot_ownership,
}

module _ ⦃r : Runtime⦄ where
  -- the snapshots that a result lists
  unfoldable pub snapshots_of : Json → Result (List Json)
  snapshots_of row = do listed ← get row "snapshots" (arr nil); iterate listed

  Owned : String → Owners → Json → Type 0
  Owned identity owners snapshot =
      (key : SnapshotKey) × (snapshot_key snapshot ≡ ok key) × (lookup key owners ≡ some identity)

  OwnsAll : Owners → Json → Type 0
  unfolding Owned
  OwnsAll owners row =
      (identity : String) × (snapshots : List Json) × (execution_id row ≡ ok identity)
      × (snapshots_of row ≡ ok snapshots)
      × All (Owned identity owners) snapshots

  same_owner :
      (o : Option String) (identity : String)
      → by_other o identity ≡ false
      → (o ≡ none) ⊎ (o ≡ some identity)
  same_owner none identity h = inl refl
  same_owner (some owner) identity h = inr (ground (arith, eq_iff owner identity))

  own_snapshot-keeps :
      (key : SnapshotKey) (owner identity : String) (owners : Owners) (snapshot : Json)
      (owners' : Owners)
      → lookup key owners ≡ some owner
      → own_snapshot identity owners snapshot ≡ ok owners'
      → lookup key owners' ≡ some owner
  unfolding own_snapshot
  own_snapshot-keeps key owner identity owners snapshot owners' at h =
      through (snapshot_key snapshot) _ h λ own _ h₁.
        past (by_other (lookup own owners) identity) _ _ h₁ λ free h₂. rw (← (ok-injective h₂)) (
          insert_agreeing own key identity owner owners
            (same_owner (lookup own owners) identity free) at)

  own_snapshot-Owned :
      (identity : String) (owners : Owners) (snapshot : Json) (owners' : Owners)
      → own_snapshot identity owners snapshot ≡ ok owners'
      → Owned identity owners' snapshot
  unfolding own_snapshot Owned
  own_snapshot-Owned identity owners snapshot owners' h =
      through (snapshot_key snapshot) _ h λ own keyed h₁.
        past (by_other (lookup own owners) identity) _ _ h₁
          λ free h₂. (own, keyed, rw (← (ok-injective h₂)) (lookup-insert_self own identity owners))

  Owned-keeps :
      (owner identity : String) (earlier : Json) (owners : Owners) (snapshot : Json)
      (owners' : Owners)
      → Owned owner owners earlier
      → own_snapshot identity owners snapshot ≡ ok owners'
      → Owned owner owners' earlier
  unfolding Owned
  Owned-keeps owner identity earlier owners snapshot owners' (key, keyed, at) h =
      (key, keyed, own_snapshot-keeps key owner identity owners snapshot owners' at h)

  own_row-OwnsAll :
      (owners : Owners) (row : Json) (owners' : Owners)
      → own_row owners row ≡ ok owners'
      → OwnsAll owners' row
  unfolding own_row OwnsAll snapshots_of
  own_row-OwnsAll owners row owners' h = through (execution_id row) _ h λ identity own h₁.
      through (get row "snapshots" (arr nil)) _ h₁ λ listed got h₂.
        through (iterate listed) _ h₂ λ snapshots iterated h₃. (
          identity,
          snapshots,
          own,
          rw (got, iterated) refl,
          fold_m-All (Owned identity) (own_snapshot identity) (own_snapshot-Owned identity)
              (Owned-keeps identity identity) owners snapshots owners' h₃,
        )

  own_row-keeps :
      (owner : String) (earlier : Json) (owners : Owners) (row : Json) (owners' : Owners)
      → Owned owner owners earlier
      → own_row owners row ≡ ok owners'
      → Owned owner owners' earlier
  unfolding own_row
  own_row-keeps owner earlier owners row owners' owned h =
      through (execution_id row) _ h λ identity own h₁.
        through (get row "snapshots" (arr nil)) _ h₁ λ listed got h₂.
          through (iterate listed) _ h₂ λ snapshots iterated h₃.
            fold_m_inv (λ s. Owned owner s earlier) (own_snapshot identity)
              (Owned-keeps owner identity earlier) owners snapshots owners' owned h₃

  All-kept :
      (owner : String) (owners : Owners) (row : Json) (owners' : Owners) (snapshots : List Json)
      → own_row owners row ≡ ok owners'
      → All (Owned owner owners) snapshots
      → All (Owned owner owners') snapshots
  All-kept owner owners row owners' [] h owned = tt
  All-kept owner owners row owners' (s ∷ snapshots) h owned = (
    own_row-keeps owner s owners row owners' owned.0 h,
    All-kept owner owners row owners' snapshots h owned.1,
  )

  OwnsAll-keeps :
      (earlier : Json) (owners : Owners) (row : Json) (owners' : Owners)
      → OwnsAll owners earlier
      → own_row owners row ≡ ok owners'
      → OwnsAll owners' earlier
  unfolding OwnsAll
  OwnsAll-keeps earlier owners row owners' (identity, snapshots, own, listed, owned) h =
      (identity, snapshots, own, listed, All-kept identity owners row owners' snapshots h owned)

  -- who owns a snapshot of a row, at the end
  OwnsAll-owner :
      (owners : Owners) (row : Json) (identity : String) (snapshots : List Json) (m : ℕ)
      (snapshot : Json) (key : SnapshotKey)
      → OwnsAll owners row
      → execution_id row ≡ ok identity
      → snapshots_of row ≡ ok snapshots
      → get_elem? snapshots m ≡ some snapshot
      → snapshot_key snapshot ≡ ok key
      → lookup key owners ≡ some identity
  unfolding OwnsAll Owned
  OwnsAll-owner owners row identity snapshots m snapshot key (owner, known, own, listed, owned) h k
        at keyed =
      let same_list = ok-injective (sym listed ∙ k) in
      let (key', keyed', owner_at) =
        All-get_elem? (Owned owner owners) snapshots m (rw same_list at owned) at in
      cc

  -- If validate_snapshot_ownership accepts the rows, two rows that list a snapshot with the
  -- same backend and path have the same identity.
  pub validate_snapshot_ownership_unique :
      (rows : List Json) (m n p q : ℕ) (row row' : Json) (identity identity' : String)
      (snapshots snapshots' : List Json) (snapshot snapshot' : Json) (key : SnapshotKey)
      → validate_snapshot_ownership rows ≡ ok tt
      → get_elem? rows m ≡ some row
      → get_elem? rows n ≡ some row'
      → execution_id row ≡ ok identity
      → execution_id row' ≡ ok identity'
      → snapshots_of row ≡ ok snapshots
      → snapshots_of row' ≡ ok snapshots'
      → get_elem? snapshots p ≡ some snapshot
      → get_elem? snapshots' q ≡ some snapshot'
      → snapshot_key snapshot ≡ ok key
      → snapshot_key snapshot' ≡ ok key
      → identity ≡ identity'
  unfolding validate_snapshot_ownership
  validate_snapshot_ownership_unique rows m n p q row row' identity identity' snapshots snapshots'
        snapshot snapshot' key h at_m at_n own own' listed listed' at_p at_q keyed keyed' =
      through (fold_m own_row [] rows) _ h λ owners all _.
        let owned = fold_m-All OwnsAll own_row own_row-OwnsAll OwnsAll-keeps [] rows owners all in
        some-injective (
          sym (
            OwnsAll-owner owners row identity snapshots p snapshot key
              (All-get_elem? (OwnsAll owners) rows m owned at_m) own listed at_p keyed)
          ∙ OwnsAll-owner owners row' identity' snapshots' q snapshot' key
              (All-get_elem? (OwnsAll owners) rows n owned at_n) own' listed' at_q keyed')
