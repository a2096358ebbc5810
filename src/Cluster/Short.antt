-- ===== src/Cluster/Short.antt =====
-- A checkpoint of more cores than there are harts: those that come wait for ever.
use lib_checkpoint.Memory.{Memory}
