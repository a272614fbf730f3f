-- ===== src/Vm/Safety/Inputs.antt =====
-- The opcodes of INPUT are defined and keep the invariant.
use basset_lang.Prelude.{
  ℕ, ◌<◌, Bool, some, List, length, get_elem?, arith, Ensures, Ensures-bind, Ensures-if,
  Ensures-get, store_at-some,
}
use basset_lang.Host.{Host}
use basset_lang.Program.{CompiledProgram}
use basset_lang.Vm.State.{Input, Vm}
use basset_lang.Vm.Input.{
  get_next_input_value, read_line, set_number, op_input_num, op_input_str, op_input_prompt,
  input_ended, is_valid_numeric_input,
}
use basset_lang.Vm.Safety.Variables.{StoreOk-num_vars, StoreOk-str_vars}
use basset_lang.Vm.Safety.Io.{Keeps, Keeps-store, Keeps-world, Keeps-next}

module _ {h : Host} {ks : List Bool} {p : CompiledProgram h} where
  Keeps-input : (i : Input) {vm : Vm h} → Keeps ks p vm → Keeps ks p (record vm { input = i })
  Keeps-input i k = record {
    wf = record { cpu_ok = k.wf.cpu_ok; store_ok = k.wf.store_ok; channels_ok = k.wf.channels_ok };
    same = k.same;
  }

  Keeps-read_line : {vm : Vm h} → Keeps ks p vm → Keeps ks p (read_line vm).1
  unfolding read_line
  Keeps-read_line k = ground arith

  Keeps-next_input : {vm : Vm h} → Keeps ks p vm → Keeps ks p (get_next_input_value vm).1
  unfolding get_next_input_value
  Keeps-next_input k = ground (arith, Keeps-read_line k)

  Ensures-set_number :
      (i : ℕ) (d : h.Double) {vm : Vm h}
      → i < length ks
      → Keeps ks p vm
      → Ensures (Keeps ks p) (set_number i d vm)
  unfolding set_number
  Ensures-set_number i d {vm} b k =
      rw (store_at-some vm.store.num_vars i d (omega (arith, k.wf.store_ok.numbers_fit)))
        (Keeps-next (Keeps-store (StoreOk-num_vars i d k.wf.store_ok) k))

  pub Ensures-op_input_num :
      (i : ℕ) {vm : Vm h} → i < length ks → Keeps ks p vm → Ensures (Keeps ks p) (op_input_num i vm)
  unfolding op_input_num
  Ensures-op_input_num i {vm} b k =
      let (value, vm₁) = get_next_input_value vm in
      let k₁ = Keeps-next_input k in
      Ensures-if _ (input_ended value vm₁) _ _ (λ _. Ensures-set_number i _ b k₁)
        λ _.
          Ensures-if _ (is_valid_numeric_input value) _ _ (λ _. Ensures-set_number i _ b k₁)
            (λ _. Keeps-input _ (Keeps-world _ k₁))

  pub Ensures-op_input_str :
      (i : ℕ) {vm : Vm h} → i < length ks → Keeps ks p vm → Ensures (Keeps ks p) (op_input_str i vm)
  unfolding op_input_str
  Ensures-op_input_str i {vm} b k =
      let (value, vm₁) = get_next_input_value vm in
      let k₁ = Keeps-next_input k in
      rw
        (store_at-some vm₁.store.str_vars i (some value)
          (omega (arith, k₁.wf.store_ok.strings_fit)))
        (Keeps-next (Keeps-store (StoreOk-str_vars i (some value) k₁.wf.store_ok) k₁))

  pub Ensures-op_input_prompt :
      (i : ℕ) {vm : Vm h}
      → i < length vm.program.string_pool
      → Keeps ks p vm
      → Ensures (Keeps ks p) (op_input_prompt i vm)
  unfolding op_input_prompt
  Ensures-op_input_prompt i {vm} b k =
      Ensures-bind (λ _. Unit {0}) _ (get_elem? vm.program.string_pool i) _
        (Ensures-get _ vm.program.string_pool i b (λ _ _. tt)) λ s _. Keeps-next (Keeps-world _ k)
