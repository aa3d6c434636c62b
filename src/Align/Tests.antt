-- ===== src/Align/Tests.antt =====
-- The alignment helpers of kernel/include/lib/align.h at concrete addresses.
