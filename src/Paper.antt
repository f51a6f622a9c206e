-- ===== src/Paper.antt =====
-- The paper observation of src/the_pass/paper/runtime.py.
pub mod Sorting
pub mod Observation
pub mod Streams
pub mod Clean
pub mod Examples
