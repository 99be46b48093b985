-- ===== src/Library.antt =====
-- src/lib.rs: the serializer that the whole crate uses, rmp_serde at a type.
use replicat.Exec.{Result, ok}
use replicat.Sql.{Bytes}
use replicat.Env.{Codec}

abbrev pub to_bytes : {A : Type 0} → Codec A → A → Result Unit Bytes
to_bytes codec v = codec.to_vec v

abbrev pub from_bytes : {A : Type 0} → Codec A → Bytes → Result Unit A
from_bytes codec buf = codec.from_slice buf

abbrev pub start_node : Result Unit Unit
start_node = ok tt
