-- ===== src/Base/Codec.antt =====
-- encoding/json at one type: `Marshal`, and `Unmarshal` into a fresh value of the type.
use Prim.Native.String.{String}
use mathlib.Core.Path.{◌≡◌}
use go_grpc_http.Base.Action.{Result, ok, Bytes}

pub record Codec (A : Type 0) : Type 0 where
  pub marshal : A → Result String Bytes
  pub unmarshal : Bytes → Result String A

-- What was marshalled is read back.
pub record IsFaithful {A : Type 0} (c : Codec A) : Type 0 where
  pub round_trip : (a : A) {b : Bytes} → c.marshal a ≡ ok b → c.unmarshal b ≡ ok a
