-- ===== src/Lib.antt =====
-- graphloom: a Rust implementation of graph-based retrieval. An indexing pipeline cuts documents into
-- chunks, extracts a graph of entities and relationships and writes tables; query methods answer
-- questions over these tables; a store keeps what a run did, so that it can be explained.
--
-- Base holds the shared helpers: tests and lists on native numbers, text as UTF-8 bytes, maps as
-- association lists, results with `?`, and `slice::sort_by` with what Rust documents of it.
--
-- Explain models crates/graphloom/src/explainability: Types has the rows of dto.rs and record.rs,
-- Queries the errors, limits and filters of store.rs, and Store the in-memory store, one function
-- for each method. A method takes the state under its lock and returns the result with the new state.
-- LiveHub models live_hub.rs, with a channel as what is sent to it, and RecorderState and Recorder
-- store_recorder.rs over that store and that hub: the sink's emit and finish_run, the owner's
-- create_run and complete_run (request_create, request_complete) and shutdown, and write_next, a round
-- of the loop of run_writer. Their semaphores make each of them one step of the shared state, and
-- Recorder/Acts writes an order of such steps as a list. An answer that waits for the writer is read
-- off the state, and a subscription falls between two rounds of the writer.
--
-- Chunking models crates/graphloom-chunking/src: the token windows of token_chunker.rs (functions
-- split_text_on_tokens, split_text_on_tokens_with_spans and create_chunk_results) over an encoder and
-- a decoder that the caller passes. The fuel of its loop is one more than the tokens, which is enough
-- since each round moves the start of the window on.
--
-- Init models crates/graphloom/src/cli/init/transaction.rs: Disk is the file system that its calls
-- run on, with a list of faults that says which calls fail, and Transaction the functions of the file.
-- The text of a UUID is a parameter.
--
-- Graph models crates/graphloom/src/operations/graph: Rows the row types, Group the loop that the two
-- merges of merge.rs share, Merge the merges and the orphan filter, and Finalize the degrees and the
-- final tables of finalize.rs. Weights are a type parameter with a sum, new identifiers a stream.
--
-- Storage models crates/graphloom-storage/src: Path the names of path.rs, on Unix, and Memory the
-- storage of storage/memory.rs.
--
-- Pipeline models crates/graphloom/src: workflow.rs, pipeline.rs and stats.rs. A workflow is a record of
-- functions; the run returns the list of the callbacks that it made in the context.
--
-- Query models crates/graphloom/src/query: Drift the action graph of drift/state.rs and drift/action.rs,
-- Concurrency the bounded runner of concurrency.rs, in which the order that futures end in is a
-- schedule that the theorems range over, and Context the conversation history of
-- context/conversation.rs with the CSV section of context/csv.rs, over a writer of records and a
-- tokenizer that are parameters.
--
-- Communities models crates/graphloom/src/operations/communities.rs: the edges that the clustering
-- starts from, and in Component the choice of the largest component. Its breadth-first search runs on
-- fuel, one more than the nodes, which is enough since a node is queued once. What
-- normalize_node_name does to a name is a parameter.
--
-- Update models the merge of entities in crates/graphloom/src/operations/update.rs, over rows instead of
-- Polars frames.
--
-- The parts meet as in the program: the pipeline takes workflows as functions, the chunker is called
-- per document, the merge is applied to what was extracted, and its result is finalized.
--
-- Not modelled: calls of language models, of vector stores, of Polars and, outside Init, of the file system, and
-- serialization, whose logic is not in this repository; floating-point arithmetic; the clock
-- and the logs.
pub mod Base
pub mod Init
pub mod Explain
pub mod Chunking
pub mod Graph
pub mod Query
pub mod Storage
pub mod Pipeline
pub mod Communities
pub mod Update
