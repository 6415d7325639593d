-- ===== src/Books.antt =====
-- Books and their uploads: apps/api/src/books/books.service.ts, with the quotas and the checks of
-- tenant and role that it calls. The jobs are the rows of Jobs/Model, dispatched as Jobs/Dispatch does.
pub mod Model
pub mod Library
pub mod Uploads
pub mod Rows
pub mod Purge
pub mod Versions
pub mod Deletion
mod Tests
pub mod Listing
pub mod Pages
