-- ===== src/Bytecode.antt =====
-- src/bytecode.h: the opcodes and the instruction. The constructors of `Op` are the `#define`s, in
-- small letters (`modulo` is OP_MOD and `open_file` is OP_OPEN); `other` stands for the bytes that
-- no `#define` names.
pub mod RoundTrip
use basset_lang.Prelude.{ℕ, List, [], ◌∷◌, ◌==◌, if◌then◌else◌}

pub data Op : Type 0 where
  push_const push_var pop_var dup pop str_pop_var str_push_var add sub mul div modulo : Op
  pow neg eq ne lt le gt ge and or not str_push str_concat str_len str_val str_chr : Op
  str_str str_asc str_left str_right str_mid str_mid_2 fn_err array_get_1d : Op
  array_set_1d array_get_2d array_set_2d dim_1d dim_2d str_array_get_1d : Op
  str_array_set_1d str_array_get_2d str_array_set_2d jump jump_if_false jump_if_true : Op
  jump_line gosub gosub_line return on_goto on_gosub for_init for_next print_num : Op
  print_str print_newline print_space print_tab tab_func print_nosep input_num : Op
  input_str input_prompt open_file close get put note point status xio data_read_num : Op
  data_read_str set_print_channel func_sin func_cos func_tan func_atn func_exp : Op
  func_log func_clog func_sqr func_abs func_int func_rnd func_sgn trap trap_disable : Op
  end stop restore restore_line deg rad randomize clr pop_gosub nop halt func_peek : Op
  poke : Op
  other : ℕ → Op

-- The byte of an opcode.
unfoldable pub byte_of : Op → ℕ
byte_of push_const = 0x00
byte_of push_var = 0x01
byte_of pop_var = 0x02
byte_of dup = 0x03
byte_of pop = 0x04
byte_of str_pop_var = 0x05
byte_of str_push_var = 0x06
byte_of add = 0x10
byte_of sub = 0x11
byte_of mul = 0x12
byte_of div = 0x13
byte_of modulo = 0x14
byte_of pow = 0x15
byte_of neg = 0x16
byte_of eq = 0x20
byte_of ne = 0x21
byte_of lt = 0x22
byte_of le = 0x23
byte_of gt = 0x24
byte_of ge = 0x25
byte_of and = 0x26
byte_of or = 0x27
byte_of not = 0x28
byte_of str_push = 0x30
byte_of str_concat = 0x31
byte_of str_len = 0x32
byte_of str_val = 0x33
byte_of str_chr = 0x34
byte_of str_str = 0x35
byte_of str_asc = 0x36
byte_of str_left = 0x37
byte_of str_right = 0x38
byte_of str_mid = 0x39
byte_of str_mid_2 = 0x3a
byte_of fn_err = 0x3b
byte_of array_get_1d = 0x40
byte_of array_set_1d = 0x41
byte_of array_get_2d = 0x42
byte_of array_set_2d = 0x43
byte_of dim_1d = 0x44
byte_of dim_2d = 0x45
byte_of str_array_get_1d = 0x46
byte_of str_array_set_1d = 0x47
byte_of str_array_get_2d = 0x48
byte_of str_array_set_2d = 0x49
byte_of jump = 0x50
byte_of jump_if_false = 0x51
byte_of jump_if_true = 0x52
byte_of jump_line = 0x53
byte_of gosub = 0x54
byte_of gosub_line = 0x55
byte_of return = 0x56
byte_of on_goto = 0x57
byte_of on_gosub = 0x58
byte_of for_init = 0x59
byte_of for_next = 0x5a
byte_of print_num = 0x60
byte_of print_str = 0x61
byte_of print_newline = 0x62
byte_of print_space = 0x63
byte_of print_tab = 0x64
byte_of tab_func = 0x65
byte_of print_nosep = 0x66
byte_of input_num = 0x67
byte_of input_str = 0x68
byte_of input_prompt = 0x69
byte_of open_file = 0x6a
byte_of close = 0x6b
byte_of get = 0x6c
byte_of put = 0x6d
byte_of note = 0x6e
byte_of point = 0x6f
byte_of status = 0x70
byte_of xio = 0x71
byte_of data_read_num = 0x72
byte_of data_read_str = 0x73
byte_of set_print_channel = 0x74
byte_of func_sin = 0x75
byte_of func_cos = 0x76
byte_of func_tan = 0x77
byte_of func_atn = 0x78
byte_of func_exp = 0x79
byte_of func_log = 0x7a
byte_of func_clog = 0x7b
byte_of func_sqr = 0x7c
byte_of func_abs = 0x7d
byte_of func_int = 0x7e
byte_of func_rnd = 0x7f
byte_of func_sgn = 0x80
byte_of trap = 0x81
byte_of trap_disable = 0x82
byte_of end = 0x83
byte_of stop = 0x84
byte_of restore = 0x85
byte_of restore_line = 0x86
byte_of deg = 0x87
byte_of rad = 0x88
byte_of randomize = 0x89
byte_of clr = 0x8a
byte_of pop_gosub = 0x8b
byte_of nop = 0x8c
byte_of halt = 0x8d
byte_of func_peek = 0x8e
byte_of poke = 0x8f
byte_of (other b) = b

-- The opcodes that a `#define` names.
abbrev pub named_ops : List Op
named_ops =
    push_const ∷ push_var ∷ pop_var ∷ dup ∷ pop ∷ str_pop_var ∷ str_push_var ∷ add ∷ sub ∷ mul ∷ div
    ∷ modulo ∷ pow ∷ neg ∷ eq ∷ ne ∷ lt ∷ le ∷ gt ∷ ge ∷ and ∷ or ∷ not ∷ str_push ∷ str_concat
    ∷ str_len ∷ str_val ∷ str_chr ∷ str_str ∷ str_asc ∷ str_left ∷ str_right ∷ str_mid ∷ str_mid_2
    ∷ fn_err ∷ array_get_1d ∷ array_set_1d ∷ array_get_2d ∷ array_set_2d ∷ dim_1d ∷ dim_2d
    ∷ str_array_get_1d ∷ str_array_set_1d ∷ str_array_get_2d ∷ str_array_set_2d ∷ jump
    ∷ jump_if_false ∷ jump_if_true ∷ jump_line ∷ gosub ∷ gosub_line ∷ return ∷ on_goto ∷ on_gosub
    ∷ for_init ∷ for_next ∷ print_num ∷ print_str ∷ print_newline ∷ print_space ∷ print_tab
    ∷ tab_func ∷ print_nosep ∷ input_num ∷ input_str ∷ input_prompt ∷ open_file ∷ close ∷ get ∷ put
    ∷ note ∷ point ∷ status ∷ xio ∷ data_read_num ∷ data_read_str ∷ set_print_channel ∷ func_sin
    ∷ func_cos ∷ func_tan ∷ func_atn ∷ func_exp ∷ func_log ∷ func_clog ∷ func_sqr ∷ func_abs
    ∷ func_int ∷ func_rnd ∷ func_sgn ∷ trap ∷ trap_disable ∷ end ∷ stop ∷ restore ∷ restore_line
    ∷ deg ∷ rad ∷ randomize ∷ clr ∷ pop_gosub ∷ nop ∷ halt ∷ func_peek ∷ poke ∷ []

find_op : List Op → ℕ → Op
find_op [] b = other b
find_op (op ∷ ops) b = if byte_of op == b then op else find_op ops b

-- The case of `switch (inst.opcode)` that a byte selects.
unfoldable pub decode : ℕ → Op
unfolding find_op byte_of
decode b = find_op named_ops b

pub record Instruction : Type 0 where
  pub opcode : Op
  pub flags : ℕ
  pub operand : ℕ
