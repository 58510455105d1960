-- ===== src/Rbac/Tests.antt =====
-- The theorems on roles and permissions at concrete names.
