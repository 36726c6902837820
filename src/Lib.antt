-- ===== src/Lib.antt =====
-- resQ is a testing framework for kdb+/q. Its Python tools (tools/*.py) work on the JSON documents that
-- a run writes: they merge the reports of shards, validate them, project them to profiles, migrate
-- identities and keep trends. This library models the tools that compute on such documents.
--
-- The parts, and where they are modelled:
--   Base       shared names, lists, sets, sorting, and the order of texts
--   Py         the layer of Python that the tools use: JSON values, dicts in insertion order, `==`,
--              truth, subscripts and `.get`, exceptions as results, loops, `json.dumps`, hashing
--   Migrate    tools/migrate_identity_state.py: Inventory (manifest, execution_key, parent_key,
--              indexed), Pairing (pair_maps), State (map_id, migrate_state)
--   Profiles   tools/report_profiles.py: completeness, project
--   Merge      tools/merge_shards.py: Topology (topology), Sources (validate_sources), Inventory
--              (validate_inventory), Results (validate_results), Ownership
--              (validate_snapshot_ownership, merge_performance, merge_diagnostics), Statuses
--              (status_summary). The inventories give the identities that are expected of each
--              shard, and the results are checked against them. Coverage, benchmark analysis,
--              lifecycle events and the assembly of the merged report are not modelled.
--   Trend      tools/self_coverage_trend.py: validate_summary, validate_trend, append_point
--   Quarantine tools/update_quarantine.py: load_proposals, load_manifest, build_manifest, on the parsed
--              files, with the current time as an argument
--   Reconcile  tools/reconcile_coverage.py: rows_by_identity, reconcile_reports. Its execution_id is the
--              function of that name of Merge, and the validator of reports is an argument, which
--              Inventory fills with that of Report.
--   Ndjson     tools/resq_to_ndjson.py: records, as the list of all that the generator yields
--   Coverage   tools/coverage_contract.py, whole: Summary (validate_summary), Gates (validate_gate,
--              validate_report_coverage), Sites (validate_hit_record, validate_site), Functions, Files,
--              Artifact and References (validate_coverage_artifact), Contexts and Measurement
--              (validate_context_measurement). Found relates what the checks have read to the rows of
--              the document, and Consistency, Edges, Branches, Verdict, Parts, Totals, Identities,
--              Metrics, Observed, Limits and Hits say what an accepted document is.
--   Report     tools/validate_report.py, whole but for main: Numbers (reject_non_finite_numbers,
--              validate_canonical_value_envelopes), Benchmarks, Tests, Evidence and Rows (validate_test,
--              validate_telemetry_test), Shards (validate_profile, validate_run_shard), Completion,
--              Manifest and Selection (validate_manifest), Events and Timeline (validate_events),
--              Header, Summary, Sections, Gates and Validate (validate). Accepted, Agreement, Covered,
--              Listed, Projected and Refusals say what it accepts and refuses. It calls Coverage for the
--              coverage of a report, it is the validator that Reconcile takes as an argument, and
--              Projected relates it to Profiles.
--   Samples    runs on small documents
--
-- How code corresponds to definitions. A document is a value of Json, as json.loads gives it; a
-- function that may raise returns a Result, and a do block is the order of its statements. An
-- exception keeps its class and the fixed words of its message; what an f-string interpolates is
-- left out. A value that the code changes in place is passed on and returned; copy.deepcopy is the
-- identity, since values are not shared. A dict is its items in insertion order, and Json dicts have
-- no key twice, as json.loads makes them. A loop is a recursion on its list, so there is no fuel but
-- in the decimal notation of numbers, where the number itself bounds the digits, and in the count of
-- binary digits, where 5000 is enough for a number below 2^5000 (Py.Floats.bits_enough) and any other is
-- beyond the largest float.
--
-- Validators. A check that raises is a Result of the unit, and one that returns the dict that it was
-- given may return instead what it has read from it (Gate, Site, File, Context). A set that is looped
-- over is looped over in the order in which the source writes it, and an `or` of conditions that end in
-- one raise is a sequence of refusals with one message. A later read of a member that a check has found
-- to be a count or a Boolean reads it as one.
--
-- Floats. A finite binary64 is a sign and a count of units of 2^-1074, which is exact, so `==`, order,
-- truth and hashing are CPython's. Sums, products, quotients and conversions are rounded to the nearest
-- and a tie to even (Py.Floats), which is what IEEE 754 says of them. Left to CPython, as the parameter
-- Py.Text.Runtime of which nothing is assumed: `repr` of floats and containers, `float` and `int` of a
-- text, `datetime.fromisoformat`, and the characters that `\d` matches.
--
-- Sorting. The order of a merged manifest compares tuples of keys; a key that is a list or a dict,
-- which CPython could compare with another list, raises here.
--
-- Bounds. A NaN counts as equal to itself as a key of a dict, and a text has no lone surrogates. The
-- fileId of a source inventory is read as a text (Merge.Sources.file_id), as a valid report has it.
-- Reading and writing files, the command lines and the framework in q (lib/*.q) are not modelled.
pub mod Base
pub mod Py
pub mod Migrate
pub mod Profiles
pub mod Merge
pub mod Trend
pub mod Quarantine
pub mod Reconcile
pub mod Ndjson
pub mod Coverage
pub mod Report
mod Samples
