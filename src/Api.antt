-- ===== src/Api.antt =====
-- internal/api: the Studio API. A handler is a function of the decoded request and of the database;
-- the ServeMux, the reading of the body and the writing of the response are net/http's and
-- encoding/json's.
pub mod Reply
pub mod Rows
pub mod Sound
pub mod Recordings
pub mod Rules
pub mod Serve
pub mod Reads
pub mod Stream
pub mod Origin
