-- ===== src/Consensus/Encode.antt =====
-- The log entry that `Propose` of raft.go marshals.
use aero_mq.Prelude.{Text, codes}
use aero_mq.Json.{Json, str, obj, field, end}

unfoldable pub write_command : Text → Json → Json
write_command op payload = obj (field (codes "op") (str op) (field (codes "payload") payload end))
