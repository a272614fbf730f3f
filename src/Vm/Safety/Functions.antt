-- ===== src/Vm/Safety/Functions.antt =====
-- The logical, string and mathematical functions keep the invariant of the processor.
use basset_lang.Prelude.{ℕ, Bool}
use basset_lang.Host.{Host}
use basset_lang.Vm.State.{Cpu}
use basset_lang.Vm.Arith.{op_and, op_or, op_not}
use basset_lang.Vm.Strings.{op_len, op_asc, op_val, op_chr, op_str}
use basset_lang.Vm.Math.{op_angle, op_atn, op_log, op_clog, op_sqr, op_sgn}
use basset_lang.Vm.Safety.Invariant.{CpuOk}
use basset_lang.Vm.Safety.Control.{cpu_rules}

module _ {h : Host} {n : ℕ} where
  pub CpuOk-op_and : {c : Cpu h} → CpuOk n c → CpuOk n (op_and c)
  unfolding op_and
  CpuOk-op_and w = search cpu_rules

  pub CpuOk-op_or : {c : Cpu h} → CpuOk n c → CpuOk n (op_or c)
  unfolding op_or
  CpuOk-op_or w = search cpu_rules

  pub CpuOk-op_not : {c : Cpu h} → CpuOk n c → CpuOk n (op_not c)
  unfolding op_not
  CpuOk-op_not w = search cpu_rules

  pub CpuOk-op_len : {c : Cpu h} → CpuOk n c → CpuOk n (op_len c)
  unfolding op_len
  CpuOk-op_len w = search cpu_rules

  pub CpuOk-op_asc : {c : Cpu h} → CpuOk n c → CpuOk n (op_asc c)
  unfolding op_asc
  CpuOk-op_asc w = search cpu_rules

  pub CpuOk-op_val : {c : Cpu h} → CpuOk n c → CpuOk n (op_val c)
  unfolding op_val
  CpuOk-op_val w = search cpu_rules

  pub CpuOk-op_chr : {c : Cpu h} → CpuOk n c → CpuOk n (op_chr c)
  unfolding op_chr
  CpuOk-op_chr w = search cpu_rules

  pub CpuOk-op_str : {c : Cpu h} → CpuOk n c → CpuOk n (op_str c)
  unfolding op_str
  CpuOk-op_str w = search cpu_rules

  pub CpuOk-op_log : {c : Cpu h} → CpuOk n c → CpuOk n (op_log c)
  unfolding op_log
  CpuOk-op_log w = search cpu_rules

  pub CpuOk-op_clog : {c : Cpu h} → CpuOk n c → CpuOk n (op_clog c)
  unfolding op_clog
  CpuOk-op_clog w = search cpu_rules

  pub CpuOk-op_sqr : {c : Cpu h} → CpuOk n c → CpuOk n (op_sqr c)
  unfolding op_sqr
  CpuOk-op_sqr w = search cpu_rules

  pub CpuOk-op_sgn : {c : Cpu h} → CpuOk n c → CpuOk n (op_sgn c)
  unfolding op_sgn
  CpuOk-op_sgn w = search cpu_rules

  pub CpuOk-op_angle :
      (f : h.Double → h.Double) (deg : Bool) {c : Cpu h} → CpuOk n c → CpuOk n (op_angle f deg c)
  unfolding op_angle
  CpuOk-op_angle f deg w = search cpu_rules

  pub CpuOk-op_atn : (deg : Bool) {c : Cpu h} → CpuOk n c → CpuOk n (op_atn deg c)
  unfolding op_atn
  CpuOk-op_atn deg w = search cpu_rules
