-- ===== src/Lib.antt =====
-- storm_rev: a model of Storm, a toolkit for the embedded database bbolt (q, query.go, sink.go,
-- select_index.go, extract.go, internal), and what it keeps.
--
-- A query (query.go) holds a tree of matchers (q/tree.go, q/fieldmatcher.go, q/compare.go), a skip, a
-- limit, a direction and OrderBy fields. To run it, the engine asks the planner (select_index.go) for
-- a plan over the external index, from the tree as q/explain.go explains it, renames the fields of
-- the tree to their JSON names, and feeds records to the sorter (sink.go): the candidates of the plan
-- in key order, or every record of the bucket (internal/boltdb.go). The sorter matches each raw
-- record, keeps skip and limit, and hands records to a sink, which makes the answer.
--
-- Base holds what the modules share: lists measured by the native numbers, byte strings with
-- bytes.Compare, the result of a Go function (a value, an error or a panic), strictly sorted lists.
-- Value has the Go values that matchers compare, and Host, the record of what the program calls and
-- does not implement: floating point, gjson, regexp, reflect.DeepEqual, the codec.
-- Q models the package q: Q/Compare compare.go (compare), Q/Field fieldmatcher.go and regexp.go
-- (MatchField, MatchValue), Q/Tree tree.go (or, and, not, True, Foreach), Q/Build its constructors,
-- Q/Explain explain.go (Explain).
-- Query models sink.go: Query/Order compareValue and less, with toBytes of storm.go; Query/Sink add
-- and flush of the sinks; Query/Sorter filter, add, Less and flush, with skip and limit as ℤ.
-- Config has fieldConfig and structConfig of extract.go as the planner reads them; Bucket a bbolt
-- bucket with Cursor of internal/boltdb.go.
-- The modules of Plan model select_index.go: Plan/Leaves selectIndexPlanForLeaf, Plan/Conj
-- selectCompositePlan and selectRangePlan, Plan/Select selectIndexPlanForConfig, Plan/Candidates
-- candidateIDs and runSelectIndexPlan. Plan/Documents models the searches of bleve_index.go that
-- the plans call (document, exactToken, searchExact, searchRange, searchComposite, search) over bleve, a
-- parameter with the law Answering (Documents/Searches): the hits of a query are the documents that
-- meet it, each once, and they are fewer than bleveMaxResults. Plan/Coverage states what is asked of
-- the state and of the query: the index holds for each record the document that is made of it
-- (Covers); and where a record's JSON meets a matcher of the query on an indexed field, the field of the
-- struct has the same bytes, or is in the bound and not zero (Fitting), which fails for a value of
-- another integer width and for a range around zero. In Plan/Sound and Plan/Equivalence the planner
-- is compared with the full scan.
-- Run models query.go: runQuery and query, Find, First, Count and Raw.
-- Sql/Raw models the reading of raw records in sql.go (selectRawRecords without ORDER BY,
-- selectRawRecordsByIDCursor, countRawRecords, sliceRawRecords), Sql/Convert convertSQLValue, and
-- Sql/Where the WHERE, ORDER BY and LIMIT of a parsed statement with their arguments
-- (matcherFromExpr, orderBy, limit, buildSelectPlan); Store/Unique the check of unique
-- fields in store.go (uniqueExistsByScan, saveAllUniqueState); Tx transaction.go (Begin, Commit,
-- Rollback), with the mutex and the flag that the copies of a node share; Meta the check of columns in
-- metadata_edit.go (storedSchemaFromColumns); Key numbertob and numberfromb of storm.go.
-- Indexer models the work on the external index. Indexer/Batch is applyIndexRequests and what it
-- calls in bleve_batch.go, with dropTable, which clears every table that shares the directory (safeIndexName):
-- mutations are coalesced by document, written in batches and kept apart by drops; Batch/Writes has the single writes that they are compared with.
-- Indexer/Coordinator is the loop of processIndexRequests over the attempts on one batch, and
-- Coordinator/Collect the loop of runIndexCoordinator that gathers the batches.
-- Indexer/Outbox is bleve_outbox.go: jobs that are stored with the transaction, their acknowledgement
-- and the state of each table; Outbox/Reach has the steps of the outbox, Outbox/Records the records
-- of a job. Indexer/Tables has the maps dirty and pending, and safeIndexName.
-- Tests holds small concrete inputs: a host, a table of two records and an index over it.
--
-- Every loop is structural recursion on a list or a tree, the loop over attempts on the list of what
-- they meet. Only runIndexCoordinator has fuel: as much as there are arrivals is enough. Numbers are unbounded where the program counts records, and
-- the conversions of compare.go and sql.go wrap at the width of their types. bbolt,
-- bleve, the codec, gjson, regexp, the SQL parser and sort.Sort are parameters; IsBucket and Answering
-- say what is asked of the first two, and Engine what the batches ask of the search engine.
--
-- Not modelled: saving and deleting (store.go, kv.go, deleteSink), the lookups of finder.go, SQL
-- statements that write and projections, prefix and full-text searches and the mappings of bleve, the submission of its
-- requests and the answers to them, the buckets of a node and their metadata, the list and unique indexes that are
-- no longer opened, codecs and options.
pub mod Base
pub mod Value
pub mod Q
pub mod Query
pub mod Config
pub mod Bucket
pub mod Plan
pub mod Run
pub mod Sql
pub mod Store
pub mod Tx
pub mod Meta
pub mod Key
pub mod Indexer
mod Tests
