-- ===== src/Migrate/State/Documents.antt =====
-- `migrate_state` on a whole document.
use resq.Base.{string_eq, String, none, some, ◌==◌, if◌then◌else◌, ◌≡◌}
use resq.Py.Value.{Json, null, str, obj, nat}
use resq.Py.Result.{ok, through}
use resq.Py.Access.{get, set_item, has_key}
use resq.Py.Equal.{is_text}
use resq.Py.Fields.{member, member-set_item, rows_of}
use resq.Py.Loops.{Pointwise}
use resq.Migrate.Pairing.{Mapping, current_algorithm}
use resq.Migrate.State.{
  migrate_row, migrate_rows, migrate_kind, migrate_identities, migrate_state, current_state_version,
}
use resq.Migrate.State.Rows.{IsRenamed, migrate_row-IsRenamed, migrate_rows-IsCarried}

-- the documents whose rows carry one identity each, with the section that holds them
pub data RowKind : String → String → Type 0 where
  history : RowKind "resq-flake-history" "tests"
  quarantine : RowKind "resq-quarantine-manifest" "entries"

-- The version, the algorithm and the codec of the new generation.
pub record IsCurrent (identity_codec document : Json) : Type 0 where
  pub version : member document "schemaVersion" ≡ some (nat current_state_version)
  pub algorithm : member document "identityAlgorithm" ≡ some (str current_algorithm)
  pub codec : member document "identityCodec" ≡ some identity_codec

-- `a`, `b` and `c` are the three assignments at the end of `migrate_state`.
module _ (x codec : Json) {a b c : Json}
    (ha : set_item x "schemaVersion" (nat current_state_version) ≡ ok a)
    (hb : set_item a "identityAlgorithm" (str current_algorithm) ≡ ok b)
    (hc : set_item b "identityCodec" codec ≡ ok c) where
  set_envelope :
      (j : String)
      → member c j ≡ (
          if "identityCodec" == j
          then some codec
          else if "identityAlgorithm" == j
          then some (str current_algorithm)
          else if "schemaVersion" == j
          then some (nat current_state_version)
          else member x j)
  set_envelope j = rw (member-set_item b "identityCodec" codec hc j) (
      rw (member-set_item a "identityAlgorithm" (str current_algorithm) hb j)
        (rw (member-set_item x "schemaVersion" (nat current_state_version) ha j)))

  set_envelope-IsCurrent : IsCurrent codec c
  set_envelope-IsCurrent = record {
    version = set_envelope "schemaVersion";
    algorithm = set_envelope "identityAlgorithm";
    codec = set_envelope "identityCodec";
  }

by_kind :
    (mapping : Mapping) (state : Json) (kind : String) {x : Json}
    → member state "failedTestIds" ≡ none
    → member state "kind" ≡ some (str kind)
    → migrate_identities mapping state ≡ ok x
    → migrate_kind mapping (str kind) state ≡ ok x
unfolding migrate_identities get has_key
by_kind mapping (obj fs) kind no_ids is_kind h = rw no_ids at (rw is_kind at h)
by_kind mapping null kind no_ids is_kind h = cc
by_kind mapping _ kind no_ids is_kind h = cc

by_rows :
    (mapping : Mapping) (state : Json) {kind section : String} {x : Json}
    → RowKind kind section
    → migrate_kind mapping (str kind) state ≡ ok x
    → migrate_rows (migrate_row mapping) section state ≡ ok x
unfolding migrate_kind is_text
by_rows mapping state history h = h
by_rows mapping state quarantine h = h

-- The envelope is written beside the section, so the section stays as it is.
past_envelope :
    {kind section : String} (codec x c : Json)
    → RowKind kind section
    → ((j : String)
        → member c j ≡ (
            if "identityCodec" == j
            then some codec
            else if "identityAlgorithm" == j
            then some (str current_algorithm)
            else if "schemaVersion" == j
            then some (nat current_state_version)
            else member x j))
    → member c section ≡ member x section
past_envelope codec x c history h = h "tests"
past_envelope codec x c quarantine h = h "entries"

-- If migrate_state returns on a flake history or a quarantine manifest, the document has the
-- same rows in order, each with the identity that the mapping gives for its old one and with
-- its other members kept, and it has the version, the algorithm and the codec of the new
-- generation.
pub migrate_state-rows :
    (state codec out : Json) (mapping : Mapping) {kind section : String}
    → RowKind kind section
    → member state "failedTestIds" ≡ none
    → member state "kind" ≡ some (str kind)
    → migrate_state state mapping codec ≡ ok out
    → Pointwise (IsRenamed mapping) (rows_of (member state section)) (rows_of (member out section))
      × IsCurrent codec out
unfolding migrate_state
migrate_state-rows state codec out mapping {kind} {section} row_kind no_ids is_kind run =
    through (migrate_identities mapping state) _ run λ x hx h₁.
      through (set_item x "schemaVersion" (nat current_state_version)) _ h₁ λ a ha h₂.
        through (set_item a "identityAlgorithm" (str current_algorithm)) _ h₂ λ b hb hc.
          let carried =
            migrate_rows-IsCarried (IsRenamed mapping) (migrate_row mapping)
              (migrate_row-IsRenamed mapping) section state x
              (by_rows mapping state row_kind (by_kind mapping state kind no_ids is_kind hx)) in
          (
            rw (past_envelope codec x out row_kind (set_envelope x codec ha hb hc)) carried.rows,
            set_envelope-IsCurrent x codec ha hb hc,
          )
