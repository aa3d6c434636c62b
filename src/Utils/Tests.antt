-- ===== src/Utils/Tests.antt =====
-- The helpers of kernel/include/lib/utils.h at concrete numbers.
