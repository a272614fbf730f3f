-- ===== src/Vm/Safety/Channels.antt =====
-- The opcodes of the channels are defined and keep the invariant. OP_XIO is not among them:
-- it frees its string twice on an error.
use basset_lang.Prelude.{
  ◌==◌, ℕ, ◌≡◌, ◌∙◌, ◌<◌, Bool, true, Option, none, some, List, length, get_elem?, arith,
  length-set, ℤ, pos, pos_part, low_byte, ◌+ℤ◌, Ensures, Ensures-bind, Ensures-if, Ensures-get,
  store_at-some, ◌>>=◌, if◌then◌else◌,
}
use basset_lang.Host.{Host}
use basset_lang.Program.{CompiledProgram}
use basset_lang.Vm.State.{Channel, Vm}
use basset_lang.Vm.Stack.{num, next, vm_pop_number, vm_pop_string, vm_push_number}
use basset_lang.Vm.Files.{
  valid_channel, close_handle, put_channel, advance, fail, opened, op_open, close_channel, op_close,
  with_file, get_byte, op_get, put_byte, op_put, note_position, op_note, op_status,
}
use basset_lang.Vm.Safety.Invariant.{CpuOk}
use basset_lang.Vm.Safety.Control.{
  CpuOk-next, CpuOk-vm_error, CpuOk-vm_pop_number, CpuOk-vm_pop_string, CpuOk-vm_push_number,
}
use basset_lang.Vm.Safety.Io.{
  Keeps, Keeps-cpu, Keeps-world, Keeps-printer, Keeps-if, Keeps-next, Keeps-pop_number,
}

channel_in_range : (chan : ℤ) → valid_channel chan ≡ true → pos_part chan < 8
channel_in_range chan t = ground arith

module _ {h : Host} {ks : List Bool} {p : CompiledProgram h} where
  Ensures-put_channel :
      (chan : ℕ) (ch : Channel h) {vm : Vm h}
      → chan < 8
      → Keeps ks p vm
      → Ensures (Keeps ks p) (put_channel chan ch vm)
  unfolding put_channel
  Ensures-put_channel chan ch {vm} b k =
      rw (store_at-some vm.channels chan ch (omega (arith, k.wf.channels_ok))) (record {
        wf = record {
          cpu_ok = k.wf.cpu_ok;
          store_ok = k.wf.store_ok;
          channels_ok = length-set vm.channels chan ch ∙ k.wf.channels_ok;
        };
        same = k.same;
      })

  Ensures-channel :
      (chan : ℕ) {vm : Vm h}
      → chan < 8
      → Keeps ks p vm
      → Ensures (λ _. Unit {0}) (get_elem? vm.channels chan)
  Ensures-channel chan {vm} b k =
      Ensures-get _ vm.channels chan (omega (arith, k.wf.channels_ok)) (λ _ _. tt)

  Keeps-close_handle :
      (f : Option h.File) {vm : Vm h} → Keeps ks p vm → Keeps ks p (close_handle f vm)
  unfolding close_handle
  Keeps-close_handle none k = k
  Keeps-close_handle (some f) k = Keeps-world _ k

  -- The two cases of a handle.
  handle_cases :
      (o : Option h.File) (failed : Vm h) (body : h.File → Option (Vm h))
      → Keeps ks p failed
      → ((f : h.File) → Ensures (Keeps ks p) (body f))
      → Ensures (Keeps ks p) (elim o [ none ↦ some failed | some f ↦ body f ])
  handle_cases none failed body k q = k
  handle_cases (some f) failed body k q = q f

  Ensures-with_file :
      (chan : ℤ) (body : ℕ → Channel h → h.File → Vm h → Option (Vm h)) {vm : Vm h}
      → ((i : ℕ) (ch : Channel h) (f : h.File) → i < 8 → Ensures (Keeps ks p) (body i ch f vm))
      → Keeps ks p vm
      → Ensures (Keeps ks p) (with_file chan body vm)
  unfolding with_file
  Ensures-with_file chan body {vm} q k =
      let failed = Keeps-cpu (CpuOk-vm_error _ _ k.wf.cpu_ok) k in
      Ensures-if _ (valid_channel chan) _ _
        (λ t.
          let b = channel_in_range chan t in
          Ensures-bind _ _ (get_elem? vm.channels (pos_part chan)) _
            (Ensures-channel (pos_part chan) b k)
            λ ch _. handle_cases ch.handle _ _ failed (λ f. q (pos_part chan) ch f b))
        (λ _. failed)

  Keeps-push :
      (d : h.Double) {vm : Vm h}
      → Keeps ks p vm
      → Keeps ks p (record vm { cpu = vm_push_number d vm.cpu })
  Keeps-push d k = Keeps-cpu (CpuOk-vm_push_number d k.wf.cpu_ok) k

  Ensures-get_byte :
      (i : ℕ) (ch : Channel h) (f : h.File) {vm : Vm h}
      → i < 8
      → Keeps ks p vm
      → Ensures (Keeps ks p) (get_byte i ch f vm)
  unfolding get_byte
  Ensures-get_byte i ch f {vm} b k = byte_cases (h.fgetc f vm.world).0
    where
      byte_cases :
          (o : Option ℕ)
          → Ensures (Keeps ks p) (elim o [
            | none ↦
                put_channel i
                  (record ch { status = 3 })
                  (record vm {
                    world = (h.fgetc f vm.world).1;
                    cpu = next (vm_push_number (num h 0) vm.cpu);
                  })
            | some byte ↦
                put_channel i
                  (record ch { status = 1; position = ch.position +ℤ pos 1 })
                  (record vm {
                    world = (h.fgetc f vm.world).1;
                    cpu = next (vm_push_number (num h byte) vm.cpu);
                  })
          ])
      byte_cases none = Ensures-put_channel i _ b (Keeps-next (Keeps-push _ (Keeps-world _ k)))
      byte_cases (some byte) =
          Ensures-put_channel i _ b (Keeps-next (Keeps-push _ (Keeps-world _ k)))

  pub Ensures-op_get : {vm : Vm h} → Keeps ks p vm → Ensures (Keeps ks p) (op_get vm)
  unfolding op_get
  Ensures-op_get {vm} k =
      let k₁ = Keeps-pop_number k in
      Ensures-with_file (h.to_int (vm_pop_number vm.cpu).0) get_byte
        (λ i ch f b. Ensures-get_byte i ch f b k₁) k₁

  Ensures-put_byte :
      (byte i : ℕ) (ch : Channel h) (f : h.File) {vm : Vm h}
      → i < 8
      → Keeps ks p vm
      → Ensures (Keeps ks p) (put_byte byte i ch f vm)
  unfolding put_byte
  Ensures-put_byte byte i ch f b k = Ensures-put_channel i _ b (Keeps-next (Keeps-world _ k))

  pub Ensures-op_put : {vm : Vm h} → Keeps ks p vm → Ensures (Keeps ks p) (op_put vm)
  unfolding op_put
  Ensures-op_put {vm} k =
      let byte = low_byte (h.to_int (vm_pop_number vm.cpu).0) in
      let channel = (vm_pop_number (vm_pop_number vm.cpu).1).0 in
      let k₂ = Keeps-cpu (CpuOk-vm_pop_number (CpuOk-vm_pop_number k.wf.cpu_ok)) k in
      Ensures-with_file (h.to_int channel) (put_byte byte)
        (λ i ch f b. Ensures-put_byte byte i ch f b k₂) k₂

  Ensures-note_position :
      (i : ℕ) (ch : Channel h) (f : h.File) {vm : Vm h}
      → i < 8
      → Keeps ks p vm
      → Ensures (Keeps ks p) (note_position i ch f vm)
  unfolding note_position
  Ensures-note_position i ch f b k =
      Ensures-put_channel i _ b (Keeps-next (Keeps-push _ (Keeps-push _ k)))

  pub Ensures-op_note : {vm : Vm h} → Keeps ks p vm → Ensures (Keeps ks p) (op_note vm)
  unfolding op_note
  Ensures-op_note {vm} k =
      let k₁ = Keeps-pop_number k in
      Ensures-with_file (h.to_int (vm_pop_number vm.cpu).0) note_position
        (λ i ch f b. Ensures-note_position i ch f b k₁) k₁

  pub Ensures-op_status :
      {vm : Vm h} → Keeps ks p vm → Ensures (CpuOk (length ks)) (op_status vm.channels vm.cpu)
  unfolding op_status
  Ensures-op_status {vm} k =
      let w₁ = CpuOk-vm_pop_number k.wf.cpu_ok in
      let chan = h.to_int (vm_pop_number vm.cpu).0 in
      Ensures-if _ (valid_channel chan) _ _
        (λ t.
          Ensures-bind _ _ (get_elem? vm.channels (pos_part chan)) _
            (Ensures-channel (pos_part chan) (channel_in_range chan t) k)
            λ ch _. CpuOk-next (CpuOk-vm_push_number _ w₁))
        (λ _. CpuOk-next (CpuOk-vm_push_number _ w₁))

  pub Ensures-op_open : {vm : Vm h} → Keeps ks p vm → Ensures (Keeps ks p) (op_open vm)
  unfolding op_open advance fail
  Ensures-op_open {vm} k =
      let c₁ = (vm_pop_string vm.cpu).1 in
      let c₃ = (vm_pop_number (vm_pop_number c₁).1).1 in
      let chan = h.to_int (vm_pop_number c₃).0 in
      let w₄ =
        CpuOk-vm_pop_number
          (CpuOk-vm_pop_number (CpuOk-vm_pop_number (CpuOk-vm_pop_string k.wf.cpu_ok))) in
      let k₁ = Keeps-cpu w₄ k in
      Ensures-if _ (valid_channel chan) _ _
        (λ t.
          let b = channel_in_range chan t in
          Ensures-bind _ _ (get_elem? vm.channels (pos_part chan)) _
            (Ensures-channel (pos_part chan) b k₁)
            λ ch _.
              Ensures-bind _ _ (put_channel (pos_part chan) (opened ch _) _) _
                (Ensures-put_channel (pos_part chan) _ b (Keeps-close_handle ch.handle k₁))
                λ vm₃ k₃. Keeps-next (Keeps-world _ k₃))
        (λ _. Keeps-cpu (CpuOk-vm_error _ _ w₄) k)

  close_cases :
      (chan : ℕ) (ch : Channel h) (o : Option h.File) {vm : Vm h}
      → chan < 8
      → Keeps ks p vm
      → Ensures (Keeps ks p) (elim o [
        | none ↦ some vm
        | some f ↦
            put_channel chan
              (record ch { handle = none; status = 1 })
              (record vm { world = h.fclose f vm.world })
            >>= λ vm'. some (
                if vm'.printer.print_channel == chan
                then record vm' { printer = record vm'.printer { print_channel = 0 } }
                else vm')
      ])
  close_cases chan ch none b k = k
  close_cases chan ch (some f) b k =
      Ensures-bind _ _ (put_channel chan _ _) _ (Ensures-put_channel chan _ b (Keeps-world _ k))
        λ vm' k'. Keeps-if _ (Keeps-printer _ k') k'

  pub Ensures-op_close : {vm : Vm h} → Keeps ks p vm → Ensures (Keeps ks p) (op_close vm)
  unfolding op_close advance close_channel
  Ensures-op_close {vm} k =
      let chan = h.to_int (vm_pop_number vm.cpu).0 in
      let k₁ = Keeps-pop_number k in
      Ensures-if _ (valid_channel chan) _ _
        (λ t.
          let b = channel_in_range chan t in
          Ensures-bind _ _ (get_elem? vm.channels (pos_part chan)) _
            (Ensures-channel (pos_part chan) b k₁)
            λ ch _.
              Ensures-bind _ _ (close_channel (pos_part chan) ch _) _
                (close_cases (pos_part chan) ch ch.handle b k₁) λ vm₂ k₂. Keeps-next k₂)
        (λ _. Keeps-next k₁)
