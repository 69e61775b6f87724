-- ===== src/Rpc/Status.antt =====
-- The status codes of rpc/rpc_meta.hpp.
use blobseer.Prelude.{ℕ}

abbrev pub ok : ℕ
ok = 0

abbrev pub earg : ℕ
earg = 7

abbrev pub eres : ℕ
eres = 28

abbrev pub eobj : ℕ
eobj = 6
