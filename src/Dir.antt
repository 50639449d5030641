-- ===== src/Dir.antt =====
-- src/dir.c: the files of a directory, found by the path of a request, counted by their users, and
-- kept in a cache.
pub mod Files
pub mod Find
pub mod Requests
pub mod Answer
pub mod Serve
