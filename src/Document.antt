-- ===== src/Document.antt =====
-- internal/document: the domain types, the directory names and the pipeline.
pub mod Slug
pub mod UniqueName
pub mod FileName
pub mod Metadata
pub mod Storage
pub mod Ocr
pub mod Classify
pub mod Pipeline
