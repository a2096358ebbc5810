-- ===== src/Cluster/Decision.antt =====
-- A hart may still be deciding, in `gcpt_c_start`, while others restore: their writes do not change what
-- it reads for that.
use lib_checkpoint.Memory.{Memory}
