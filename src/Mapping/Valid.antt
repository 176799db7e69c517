-- ===== src/Mapping/Valid.antt =====
-- When the queue that the constructor from a descriptor leaves is valid.
use android_system_libfmq.Shim.{Shim}
