-- ===== src/Buffer.antt =====
-- buffer/: buffer frames and the buffer pool. The pool, the log and the files are one state, since
-- the frames hold references to both managers. A `Buffer*` is an index into the pool.
pub mod Frame
pub mod Pool
