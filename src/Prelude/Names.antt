-- ===== src/Prelude/Names.antt =====
-- Names of fields and of parameters of statements.
use Prim.Native.Nat.{Ordering}
use Prim.Native.String.{String, compare}
use mathlib.Core.Bool.{Bool, true, false}

abbrev pub is_name : String → String → Bool
is_name a b = elim (compare a b) [ Ordering.eq ↦ true | _ ↦ false ]
