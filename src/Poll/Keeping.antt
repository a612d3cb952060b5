-- ===== src/Poll/Keeping.antt =====
-- Receipts in the polls that later calls leave behind.
use Prim.Native.String.{String}
use node_ecies_lib.Paillier.{Paillier}
use node_ecies_lib.Poll.State.{Poll}
