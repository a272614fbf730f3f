-- ===== src/Vm/Safety/Io.antt =====
-- Printing, input, DATA and the channels are defined and keep the invariant.
use basset_lang.Prelude.{
  ℕ, zero, suc, ◌≡◌, ◌-◌, Bool, true, false, Option, List, [], ◌∷◌, length, arith, if◌then◌else◌,
}
use basset_lang.Host.{Host, Str}
use basset_lang.Program.{CompiledProgram}
use basset_lang.Vm.State.{Diagnostic, Cpu, Store, Printer, Vm}
use basset_lang.Vm.Stack.{next, vm_pop_number, vm_pop_string}
use basset_lang.Vm.Print.{
  vm_get_output_file, op_print_num, op_print_str, op_print_newline, op_print_space, op_print_tab,
  op_tab_func, op_print_nosep, op_set_print_channel, warn, print_text, target_column, print_spaces,
  wrap_line,
}
use basset_lang.Vm.Safety.Invariant.{CpuOk, StoreOk, IsWf}
use basset_lang.Vm.Safety.Control.{CpuOk-next, CpuOk-vm_pop_number, CpuOk-vm_pop_string}

module _ {h : Host} where
  -- What the machine keeps while it runs: its invariant, and the program.
  pub record Keeps (ks : List Bool) (p : CompiledProgram h) (vm : Vm h) : Type 0 where
    pub wf : IsWf ks vm
    pub same : vm.program ≡ p

module _ {h : Host} {ks : List Bool} {p : CompiledProgram h} where
  pub Keeps-cpu :
      {vm : Vm h} {c : Cpu h}
      → CpuOk (length ks) c
      → Keeps ks p vm
      → Keeps ks p (record vm { cpu = c })
  Keeps-cpu w k = record {
    wf = record { cpu_ok = w; store_ok = k.wf.store_ok; channels_ok = k.wf.channels_ok };
    same = k.same;
  }

  pub Keeps-store :
      {vm : Vm h} {s : Store h}
      → StoreOk ks s
      → Keeps ks p vm
      → Keeps ks p (record vm { store = s })
  Keeps-store w k = record {
    wf = record { cpu_ok = k.wf.cpu_ok; store_ok = w; channels_ok = k.wf.channels_ok };
    same = k.same;
  }

  pub Keeps-world : (w : h.World) {vm : Vm h} → Keeps ks p vm → Keeps ks p (record vm { world = w })
  Keeps-world w k = record {
    wf = record { cpu_ok = k.wf.cpu_ok; store_ok = k.wf.store_ok; channels_ok = k.wf.channels_ok };
    same = k.same;
  }

  pub Keeps-printer :
      (w : Printer) {vm : Vm h} → Keeps ks p vm → Keeps ks p (record vm { printer = w })
  Keeps-printer w k = record {
    wf = record { cpu_ok = k.wf.cpu_ok; store_ok = k.wf.store_ok; channels_ok = k.wf.channels_ok };
    same = k.same;
  }

  pub Keeps-if :
      (b : Bool) {x y : Vm h} → Keeps ks p x → Keeps ks p y → Keeps ks p (if b then x else y)
  Keeps-if true a b = a
  Keeps-if false a b = b

  Keeps-print_text :
      (out : Option h.File) (s : Str) {vm : Vm h} → Keeps ks p vm → Keeps ks p (print_text out s vm)
  unfolding print_text
  Keeps-print_text out s k = Keeps-printer _ (Keeps-world _ k)

  Keeps-output_file : {vm : Vm h} → Keeps ks p vm → Keeps ks p (vm_get_output_file vm).1
  unfolding vm_get_output_file
  Keeps-output_file k = ground arith

  -- The processor after a step of a machine that keeps its invariant.
  pub Keeps-next : {vm : Vm h} → Keeps ks p vm → Keeps ks p (record vm { cpu = next vm.cpu })
  Keeps-next k = Keeps-cpu (CpuOk-next k.wf.cpu_ok) k

  pub Keeps-pop_number :
      {vm : Vm h} → Keeps ks p vm → Keeps ks p (record vm { cpu = (vm_pop_number vm.cpu).1 })
  Keeps-pop_number k = Keeps-cpu (CpuOk-vm_pop_number k.wf.cpu_ok) k

  pub Keeps-pop_string :
      {vm : Vm h} → Keeps ks p vm → Keeps ks p (record vm { cpu = (vm_pop_string vm.cpu).1 })
  Keeps-pop_string k = Keeps-cpu (CpuOk-vm_pop_string k.wf.cpu_ok) k

  Keeps-print_spaces :
      (out : Option h.File) (n : ℕ) {vm : Vm h} → Keeps ks p vm → Keeps ks p (print_spaces out n vm)
  unfolding print_spaces
  Keeps-print_spaces out zero k = k
  Keeps-print_spaces out (suc n) k = Keeps-print_spaces out n (Keeps-printer _ (Keeps-world _ k))

  Keeps-wrap_line :
      (out : Option h.File) (n : ℕ) {vm : Vm h} → Keeps ks p vm → Keeps ks p (wrap_line out n vm)
  unfolding wrap_line
  Keeps-wrap_line out n k = Keeps-if _ (Keeps-printer _ (Keeps-world _ k)) k

  pub Keeps-op_print_num : {vm : Vm h} → Keeps ks p vm → Keeps ks p (op_print_num vm)
  unfolding op_print_num
  Keeps-op_print_num {vm} k =
      let started : Vm h = record vm { cpu = (vm_pop_number vm.cpu).1 } in
      let out = (vm_get_output_file started).0 in
      let k₁ = Keeps-output_file {vm = started} (Keeps-pop_number k) in
      let k₂ =
        Keeps-if (vm_get_output_file started).1.printer.print_after_tab k₁
          (Keeps-print_text out (32 ∷ []) k₁) in
      let k₃ = Keeps-print_text out (h.format_12g (vm_pop_number vm.cpu).0) k₂ in
      Keeps-printer _ (Keeps-next (Keeps-if _ (Keeps-print_text out (32 ∷ []) k₃) k₃))

  pub Keeps-op_print_str : {vm : Vm h} → Keeps ks p vm → Keeps ks p (op_print_str vm)
  unfolding op_print_str
  Keeps-op_print_str k =
      Keeps-printer _ (Keeps-next (Keeps-print_text _ _ (Keeps-output_file (Keeps-pop_string k))))

  pub Keeps-op_print_newline : {vm : Vm h} → Keeps ks p vm → Keeps ks p (op_print_newline vm)
  unfolding op_print_newline
  Keeps-op_print_newline k = Keeps-printer _ (Keeps-world _ (Keeps-next (Keeps-output_file k)))

  pub Keeps-op_print_space : {vm : Vm h} → Keeps ks p vm → Keeps ks p (op_print_space vm)
  unfolding op_print_space
  Keeps-op_print_space k = Keeps-printer _ (Keeps-world _ (Keeps-next (Keeps-output_file k)))

  pub Keeps-op_print_tab : {vm : Vm h} → Keeps ks p vm → Keeps ks p (op_print_tab vm)
  unfolding op_print_tab
  Keeps-op_print_tab k = Keeps-printer _ (Keeps-next (Keeps-print_text _ _ (Keeps-output_file k)))

  pub Keeps-op_tab_func : {vm : Vm h} → Keeps ks p vm → Keeps ks p (op_tab_func vm)
  unfolding op_tab_func
  Keeps-op_tab_func {vm} k =
      let started : Vm h = record vm { cpu = (vm_pop_number vm.cpu).1 } in
      let (out, vm₁) = vm_get_output_file started in
      let k₁ = Keeps-output_file {vm = started} (Keeps-pop_number k) in
      let target = target_column (h.to_int (vm_pop_number vm.cpu).0) vm₁.printer.print_width in
      let vm₂ = wrap_line out target vm₁ in
      let k₂ = Keeps-wrap_line out target k₁ in
      Keeps-printer _ (Keeps-next (Keeps-print_spaces out (target - vm₂.printer.print_column) k₂))

  pub Keeps-op_print_nosep : {vm : Vm h} → Keeps ks p vm → Keeps ks p (op_print_nosep vm)
  unfolding op_print_nosep
  Keeps-op_print_nosep k = Keeps-printer _ (Keeps-next k)

  Keeps-warn : (d : Diagnostic) {vm : Vm h} → Keeps ks p vm → Keeps ks p (warn d vm)
  unfolding warn
  Keeps-warn d k = ground arith

  pub Keeps-op_set_print_channel :
      {vm : Vm h} → Keeps ks p vm → Keeps ks p (op_set_print_channel vm)
  unfolding op_set_print_channel
  Keeps-op_set_print_channel k =
      let k₁ = Keeps-next (Keeps-pop_number k) in
      Keeps-if _ (Keeps-printer _ k₁) (Keeps-warn _ (Keeps-printer _ k₁))
