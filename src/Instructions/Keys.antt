-- ===== src/Instructions/Keys.antt =====
-- lib/src/solana.ts, class `SolPublicKey`: a key made from bytes.
use swig_protocol_sdk.Common.{Option, some, Bytes, length, ◌==◌, guard, ◌>>◌}

-- `new SolPublicKey(bytes)`.
unfoldable pub sol_public_key : Bytes → Option Bytes
sol_public_key bytes = do guard (length bytes == 32); some bytes
