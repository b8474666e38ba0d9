-- ===== src/Tracegen/Matmul.antt =====
-- The accesses of matmul of scripts/tracegen.cpp, in their order.
