-- ===== src/Lib.antt =====
-- Incremental and CDC data platform: the Python of src/ (watermark, source, cdc, normalization, merge,
-- cdf) and of databricks/lakeflow.
--
-- Parts and files (paths of the code from the repository's root):
--   src/watermark/models.py: Watermark/Models.antt (cursors, statuses), Watermark/Models/Order.antt.
--     The record types of the control store stand beside its operations in Watermark/Store.antt.
--   src/watermark/control_store.py: Watermark/Store.antt (tables, queries, the starting writes) and
--     Watermark/Store/Commit.antt (the ending writes). A method `m` of the class is the function `m`;
--     a table is the list of its rows in rowid order, and `_transaction` is `transaction`, which
--     restores the store when its body raises.
--   src/watermark/source_adapter.py: Watermark/Source.antt.
--   src/watermark/landing.py: Watermark/Landing.antt, with a file as the list of its lines.
--   src/watermark/pipeline.py: Watermark/Pipeline.antt, `run_table_extraction` in the steps that its
--     docstring numbers. A `World` is what a run shares with others: the control store, the landing
--     files, the source tables. The hook of the caller is any program on the world.
--     `run_all_tables` is in Watermark/Pipeline/All.antt.
--   src/cdc/models.py: Cdc.antt, with the values of Python dictionaries and, from
--     src/source/schemas.py, the table names and primary keys.
--   src/cdc/validator.py: Cdc/Validator.antt. `none` is a raise; `Timestamps` is what the standard
--     library accepts.
--   src/source/mutation_engine.py: Cdc/Engine.antt. `apply_event` and `apply_batch` are the methods,
--     and Cdc/Engine/Snapshot.antt has the queries and the loading of a snapshot;
--     on raw dictionaries they are `apply_incoming` and `apply_incoming_batch` of Cdc/Event.antt,
--     which has `from_dict` of src/cdc/models.py.
--   src/cdc/generator.py: Cdc/Generator.antt (the snapshot index and the first batch) with its children
--     Advanced.antt (the second batch) and Fixtures.antt (the malformed events).
--   src/cdc/serialization.py: Cdc/Serialization.antt.
--   src/source/generator.py: Source/Generator.antt (tables of values, accounts) and
--     Source/Generator/Snapshot.antt (the other rows, the whole snapshot); Source/Calendar.antt states
--     what the standard library documents of dates and times; the row classes of
--     src/source/schemas.py and the formats of src/utils/helpers.py: Source.antt.
--   src/cdf/state_store.py and the classes of src/cdf/models.py: Cdf.antt, a list of registrations.
--   src/cdf/pipeline.py, `consume_table`, with `read_changes` of src/cdf/reader.py and `write_changes`
--     of src/cdf/archive.py: Cdf/Consume.antt; the other methods of the pipeline:
--     Cdf/Consume/All.antt.
--   src/normalization/models.py: Normalization.antt, with what the parts below take from Python;
--     validator.py of the same folder: Normalization/Validator.antt; fingerprint.py:
--     Normalization/Fingerprint.antt; reader.py: Normalization/Reader.antt, where a file is the list of
--     its lines; processor.py: Normalization/Enrichment.antt (steps 1 to 3, the rows and their frame) and
--     Normalization/Processor.antt (the others); pipeline.py: Normalization/Pipeline.antt. `none` is an
--     exception. An event as a dictionary, and back: Normalization/Event.antt.
--   src/merge/event_adapter.py and the column types of src/source/schemas.py: Merge.antt;
--     src/merge/event_ledger.py: Merge/Ledger.antt; merge_engine.py: Merge/Engine.antt; pipeline.py,
--     `run`: Merge/Classify.antt (steps 1 to 3) and Merge/Pipeline.antt, and `run_from_file`:
--     Merge/Files.antt; target_store.py: Merge/Target.antt; reconciliation.py:
--     Merge/Reconciliation.antt. Delta.antt states what MERGE
--     and update of a Delta table do, as a record of operations with laws.
--   databricks/lakeflow/contracts.py: Lakeflow.antt; config.py of the same folder: Lakeflow/Config.antt;
--     pipeline.py: Lakeflow/Registration.antt, the calls of the pipelines library as a list.
-- Base.antt has the shared names and lemmas: Boolean tests, lists, text order, dictionaries,
-- sorting.
--
-- How they interact: a pipeline run opens an audit, reads the checkpoint, reuses the window of an
-- unfinished run or captures a fresh HIGH, extracts the window from the source, lands it, reads it
-- back, and commits checkpoint and audit in one transaction; an exception closes the audit as
-- FAILED.
--
-- Normalization reads raw lines, sets apart what is malformed or invalid, drops exact duplicates, sets
-- apart conflicts, and hands the accepted events to the merge. The merge keeps a ledger of the events
-- that it applied. It classifies the events against it, groups them into waves by table and sequence
-- number, and for each wave records the events as PENDING, changes the table by key and marks the
-- events as APPLIED; a crash between these steps is a raise with the world as it then is.
--
-- A batch of change events is sorted, and each event is validated, tested against the identities
-- seen and the sequence of its entity, and applied to the table of the golden state. The scenario
-- generator draws its events from the snapshot of the source generator, and the reconciliation compares
-- the golden state with the tables that the merge keeps. The consumer
-- of the change feed keeps a checkpoint for each registered table.
--
-- Parameters: `json.dumps`, `json.loads` and the SHA-256 prefix (record `External`; `ReadsBack` is
-- what `json` documents of a row), the clock readings, run identifiers and process numbers of a
-- call, and whether the operating system fails a landing write. Rows are dictionaries of texts and
-- nulls, as the source tables produce them. Of the mutation engine: `str` of values that are no
-- text, and the text of a business key in the sort. Of the change-feed consumer: the feed, the
-- version of a table and the change identities (record `Delta`); the archive's MERGE inserts the
-- rows whose identity is not in it, as Delta documents. Of normalization:
-- `json`, where `json.loads` raises a JSONDecodeError or another exception, SHA-256, `int`, `str.upper`,
-- and the parsing of timestamps. Of the merge: the Delta
-- operations, Spark's largest number of a group, `Decimal`, the parsing of dates, and whether
-- `createDataFrame` takes rows; of the reconciliation, what a value of a Delta row becomes by its type.
-- Of the generators: dates, times, decimals and number formats (record `Runtime`), where a time out of
-- range raises and `IsCalendar` is the documented range, and the random numbers (record `Random`), which are
-- between their bounds; times are naive or of UTC. Every loop is structural; no fuel is used.
-- SQLite is modelled by the documented effect of each statement; a transaction is one step, as
-- BEGIN IMMEDIATE makes it.
--
-- A Spark frame is modelled as the list of its rows; a window function is computed from the rows of
-- its partition, and `row_number` for rows of different provenance, as the reader gives them.
--
-- Not modelled: `from_dict` of the row classes of src/source/schemas.py, which passes values that are
-- no text through unread, the Parquet export of the snapshot, raw dictionaries with a batch id or table
-- name that is no text in the CDC files, the connection's opening and closing, the texts of error
-- messages, patterns on paths, the history of Delta tables, and the derivation of change identities. An
-- image of an event is a dictionary or null from the processor on. A text is one of Unicode scalar values:
-- the lone surrogates that an escape in JSON can make are not modelled, and neither is the interpreter's
-- recursion limit where `json.dumps` writes a value that was read.
pub mod Base
pub mod Cdc
pub mod Cdf
pub mod Delta
pub mod Lakeflow
pub mod Merge
pub mod Normalization
pub mod Source
pub mod Watermark
