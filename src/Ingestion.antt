-- ===== src/Ingestion.antt =====
-- The pure ingestion pipeline: packages/ingestion/src. A text is the list of its code points. The
-- tables of Unicode, and the libraries that sniff a file's type and parse it, are arguments.
pub mod Model
pub mod Text
pub mod Normalize
pub mod Noise
pub mod Headings
pub mod Structure
pub mod Quality
pub mod Failure
pub mod Markdown
pub mod Pipeline
mod Tests
