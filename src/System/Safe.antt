-- ===== src/System/Safe.antt =====
-- Every event keeps the tables in order, and so they are in every state that the kernel reaches.
use muxx.Kernel.{Kernel}
