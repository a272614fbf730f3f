-- ===== src/Tokens.antt =====
-- src/tokens.h: the token bytes that the compiler tests. Some bytes stand for two tokens.
use basset_lang.Prelude.{ℕ}

abbrev pub tok_ccom : ℕ
tok_ccom = 0x50

abbrev pub tok_ceos : ℕ
tok_ceos = 0x52

abbrev pub tok_csc : ℕ
tok_csc = 0x53

abbrev pub tok_ccr : ℕ
tok_ccr = 0x54

abbrev pub tok_cgto : ℕ
tok_cgto = 0x55

abbrev pub tok_cgs : ℕ
tok_cgs = 0x56

abbrev pub tok_cle : ℕ
tok_cle = 0x5b

abbrev pub tok_cne : ℕ
tok_cne = 0x5c

abbrev pub tok_cge : ℕ
tok_cge = 0x5d

abbrev pub tok_clt : ℕ
tok_clt = 0x5e

abbrev pub tok_cgt : ℕ
tok_cgt = 0x5f

abbrev pub tok_ceq : ℕ
tok_ceq = 0x60

abbrev pub tok_cexp : ℕ
tok_cexp = 0x61

abbrev pub tok_cmul : ℕ
tok_cmul = 0x62

abbrev pub tok_cplus : ℕ
tok_cplus = 0x63

abbrev pub tok_cminus : ℕ
tok_cminus = 0x64

abbrev pub tok_cdiv : ℕ
tok_cdiv = 0x65

abbrev pub tok_cnot : ℕ
tok_cnot = 0x66

abbrev pub tok_cor : ℕ
tok_cor = 0x67

abbrev pub tok_cand : ℕ
tok_cand = 0x68

abbrev pub tok_cuminus : ℕ
tok_cuminus = 0x36

abbrev pub tok_cstr : ℕ
tok_cstr = 0x3d

abbrev pub tok_cchr : ℕ
tok_cchr = 0x3e

abbrev pub tok_casc : ℕ
tok_casc = 0x40

abbrev pub tok_cval : ℕ
tok_cval = 0x41

abbrev pub tok_clen : ℕ
tok_clen = 0x42

abbrev pub tok_catn : ℕ
tok_catn = 0x44

abbrev pub tok_ccos : ℕ
tok_ccos = 0x45

abbrev pub tok_cpeek : ℕ
tok_cpeek = 0x46

abbrev pub tok_csin : ℕ
tok_csin = 0x47

abbrev pub tok_crnd : ℕ
tok_crnd = 0x48

abbrev pub tok_cexp_f : ℕ
tok_cexp_f = 0x4a

abbrev pub tok_clog : ℕ
tok_clog = 0x4b

abbrev pub tok_cclog : ℕ
tok_cclog = 0x4c

abbrev pub tok_csqr : ℕ
tok_csqr = 0x4d

abbrev pub tok_csgn : ℕ
tok_csgn = 0x4e

abbrev pub tok_cabs : ℕ
tok_cabs = 0x4f

abbrev pub tok_cint : ℕ
tok_cint = 0x70

abbrev pub tok_cleft : ℕ
tok_cleft = 0x75

abbrev pub tok_cright : ℕ
tok_cright = 0x76

abbrev pub tok_cmid : ℕ
tok_cmid = 0x77

abbrev pub tok_cerr : ℕ
tok_cerr = 0x7a

abbrev pub tok_ctab : ℕ
tok_ctab = 0x79

abbrev pub tok_data : ℕ
tok_data = 0x01

abbrev pub tok_input : ℕ
tok_input = 0x02

abbrev pub tok_let : ℕ
tok_let = 0x06

abbrev pub tok_if : ℕ
tok_if = 0x07

abbrev pub tok_for : ℕ
tok_for = 0x08

abbrev pub tok_next : ℕ
tok_next = 0x09

abbrev pub tok_goto : ℕ
tok_goto = 0x0a

abbrev pub tok_gosub_s : ℕ
tok_gosub_s = 0x0c

abbrev pub tok_trap : ℕ
tok_trap = 0x0d

abbrev pub tok_close : ℕ
tok_close = 0x11

abbrev pub tok_clr : ℕ
tok_clr = 0x12

abbrev pub tok_deg : ℕ
tok_deg = 0x13

abbrev pub tok_dim : ℕ
tok_dim = 0x14

abbrev pub tok_end : ℕ
tok_end = 0x15

abbrev pub tok_open : ℕ
tok_open = 0x17

abbrev pub tok_status : ℕ
tok_status = 0x1a

abbrev pub tok_note : ℕ
tok_note = 0x1b

abbrev pub tok_point : ℕ
tok_point = 0x1c

abbrev pub tok_xio : ℕ
tok_xio = 0x1d

abbrev pub tok_on : ℕ
tok_on = 0x1e

abbrev pub tok_poke : ℕ
tok_poke = 0x1f

abbrev pub tok_print : ℕ
tok_print = 0x20

abbrev pub tok_rad : ℕ
tok_rad = 0x21

abbrev pub tok_read : ℕ
tok_read = 0x22

abbrev pub tok_restore : ℕ
tok_restore = 0x23

abbrev pub tok_return : ℕ
tok_return = 0x24

abbrev pub tok_stop : ℕ
tok_stop = 0x26

abbrev pub tok_pop : ℕ
tok_pop = 0x27

abbrev pub tok_question : ℕ
tok_question = 0x28

abbrev pub tok_get : ℕ
tok_get = 0x29

abbrev pub tok_put : ℕ
tok_put = 0x2a

abbrev pub tok_randomize : ℕ
tok_randomize = 0x36

abbrev pub tok_clear : ℕ
tok_clear = 0x37

abbrev pub tok_defint : ℕ
tok_defint = 0x38

abbrev pub tok_deflng : ℕ
tok_deflng = 0x39

abbrev pub tok_defsng : ℕ
tok_defsng = 0x3a

abbrev pub tok_defdbl : ℕ
tok_defdbl = 0x3b

abbrev pub tok_defstr : ℕ
tok_defstr = 0x3c

abbrev pub tok_cls : ℕ
tok_cls = 0x3d

abbrev pub tok_number : ℕ
tok_number = 0x6b

abbrev pub tok_string : ℕ
tok_string = 0x6c

abbrev pub tok_ident : ℕ
tok_ident = 0x6d

abbrev pub tok_cdol : ℕ
tok_cdol = 0x51

abbrev pub tok_clprn : ℕ
tok_clprn = 0x69

abbrev pub tok_cpnd : ℕ
tok_cpnd = 0x5a

abbrev pub tok_crprn : ℕ
tok_crprn = 0x6a

abbrev pub tok_eof : ℕ
tok_eof = 0x7f

abbrev pub tok_rem : ℕ
tok_rem = 0x00
