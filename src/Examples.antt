-- ===== src/Examples.antt =====
-- Tests of the gates on a small configuration: two tools, a SIMULATE one whose draw is declared by an
-- expression, and a MUTATE one that needs approval. The theorems at concrete inputs are in the children.
mod Configuration
mod Evaluation
mod Instances
mod Results
mod Ingestion
mod Settlement
mod Batching
mod Running
mod Recording
