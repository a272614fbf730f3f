-- ===== src/Bytecode/RoundTrip.antt =====
-- The bytes of src/bytecode.h and the opcodes that they select.
use basset_lang.Prelude.{◌≡◌, refl}
use basset_lang.Bytecode.{Op, byte_of, decode}

-- `op` is not one of the bytes that have no name.
abbrev pub IsNamed : Op → Type 0
IsNamed (Op.other b) = ⊥
IsNamed op = Unit

-- No two opcodes of the header share a byte: the byte of a named opcode selects that opcode.
pub decode-byte_of : (op : Op) → IsNamed op → decode (byte_of op) ≡ op
unfolding decode
decode-byte_of Op.add h = refl
decode-byte_of (Op.other b) h = absurd h
decode-byte_of _ h = refl
