-- ===== src/Benchmarks.antt =====
-- The benchmarks: cudf-merge.py, and send-recv-core.py with the helpers of ucp/_libs/utils_test.py.
pub mod Merge
pub mod SendRecv
pub mod Roundtrip
