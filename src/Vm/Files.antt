-- ===== src/Vm/Files.antt =====
-- src/vm.c, "File I/O Operations": the channels 1 to 7, and OP_XIO.
use basset_lang.Prelude.{
  ℕ, zero, suc, ◌+◌, ◌/◌, ◌%◌, ℤ, pos, negsuc, pos_part, low_byte, int64, ◌+ℤ◌, ◌*ℤ◌, Bool, ◌&&◌,
  Option, none, some, List, [], ◌∷◌, ◌++◌, get_elem?, store_at, leb, ◌==◌, if◌then◌else◌, ◌>>=◌,
}
use basset_lang.Host.{Host, Str, OpenMode, rb, wb, r_plus_b, w_plus_b}
use basset_lang.Vm.State.{Cpu, Channel, Vm}
use basset_lang.Vm.Stack.{
  num, next, vm_error, vm_push_number, vm_pop_number, vm_pop_string, err_bad_file_number,
  err_file_not_found,
}

-- `chan >= 1 && chan <= 7`
abbrev pub valid_channel : ℤ → Bool
valid_channel chan = leb 1 (pos_part chan) && leb (pos_part chan) 7

-- `-n`, and the quotient and remainder of a `long` by the sector size.
abbrev pub neg_of : ℕ → ℤ
neg_of zero = pos 0
neg_of (suc n) = negsuc n

abbrev pub sector_of : ℤ → ℤ
sector_of (pos n) = pos (n / 125)
sector_of (negsuc n) = neg_of ((n + 1) / 125)

abbrev pub byte_of_sector : ℤ → ℤ
byte_of_sector (pos n) = pos (n % 125)
byte_of_sector (negsuc n) = neg_of ((n + 1) % 125)

-- The modes of OPEN: 4, 8, 12 (created if it is not there), and any other number.
unfoldable pub open_mode : (h : Host) → h.Double → Str → h.World → Option h.File × h.World
open_mode h mode filename w =
    let read = h.fopen filename rb w in
    let write = h.fopen filename wb w in
    let both = h.fopen filename r_plus_b w in
    let update : Option h.File × h.World = elim both.0 [
      | none ↦ h.fopen filename w_plus_b both.1
      | some f ↦ both
    ] in
    if h.eq mode (num h 4)
    then read
    else if h.eq mode (num h 8)
    then write
    else if h.eq mode (num h 12)
    then update
    else read

module _ {h : Host} where
  -- `fclose` if a file is open.
  unfoldable pub close_handle : Option h.File → Vm h → Vm h
  close_handle none vm = vm
  close_handle (some f) vm = record vm { world = h.fclose f vm.world }

  unfoldable pub put_channel : ℕ → Channel h → Vm h → Option (Vm h)
  put_channel chan ch vm = do
    channels ← store_at vm.channels chan ch
    some (record vm { channels = channels })

  unfoldable pub advance : Vm h → Vm h
  advance vm = record vm { cpu = next vm.cpu }

  unfoldable pub fail : ℕ → Vm h → Vm h
  fail code vm = record vm { cpu = vm_error code "Invalid channel number" vm.cpu }

  unfoldable pub opened : Channel h → Option h.File → Channel h
  opened ch none = record ch { handle = none; status = 170 }
  opened ch (some f) = record { handle = some f; status = 1; position = pos 0 }

  unfoldable pub op_open : Vm h → Option (Vm h)
  unfolding close_handle put_channel advance fail open_mode opened
  op_open vm₀ =
      let (filename, c₁) = vm_pop_string vm₀.cpu in
      let (_, c₂) = vm_pop_number c₁ in
      let (mode, c₃) = vm_pop_number c₂ in
      let (channel, c₄) = vm_pop_number c₃ in
      let chan = h.to_int channel in
      let vm₁ = record vm₀ { cpu = c₄ } in
      let open_it : Option (Vm h) = (do
        ch ← get_elem? vm₁.channels (pos_part chan)
        let vm₂ = close_handle ch.handle vm₁
        let result = open_mode h mode filename vm₂.world
        vm₃ ← put_channel (pos_part chan) (opened ch result.0) vm₂
        some (advance (record vm₃ { world = result.1 }))) in
      if valid_channel chan then open_it else some (fail err_bad_file_number vm₁)

  unfoldable pub close_channel : ℕ → Channel h → Vm h → Option (Vm h)
  unfolding put_channel
  close_channel chan ch vm = elim ch.handle [
    | none ↦ some vm
    | some f ↦ do
      vm' ←
          put_channel chan (record ch { handle = none; status = 1 })
            (record vm { world = h.fclose f vm.world })
      some (
          if vm'.printer.print_channel == chan
          then record vm' { printer = record vm'.printer { print_channel = 0 } }
          else vm')
  ]

  unfoldable pub op_close : Vm h → Option (Vm h)
  unfolding close_channel advance
  op_close vm₀ =
      let (channel, c₁) = vm_pop_number vm₀.cpu in
      let chan = h.to_int channel in
      let vm₁ = record vm₀ { cpu = c₁ } in
      let close_it : Option (Vm h) = (do
        ch ← get_elem? vm₁.channels (pos_part chan)
        vm₂ ← close_channel (pos_part chan) ch vm₁
        some (advance vm₂)) in
      if valid_channel chan then close_it else some (advance vm₁)

  -- The guard of GET, PUT, NOTE and POINT: an open channel, or the error.
  unfoldable pub with_file :
      ℤ → (ℕ → Channel h → h.File → Vm h → Option (Vm h)) → Vm h → Option (Vm h)
  with_file chan body vm =
      let failed = record vm { cpu = vm_error err_file_not_found "Channel not open" vm.cpu } in
      let run : Option (Vm h) = (do
        ch ← get_elem? vm.channels (pos_part chan)
        elim ch.handle [ none ↦ some failed | some f ↦ body (pos_part chan) ch f vm ]) in
      if valid_channel chan then run else some failed

  unfoldable pub get_byte : ℕ → Channel h → h.File → Vm h → Option (Vm h)
  unfolding put_channel
  get_byte chan ch f vm =
      let (byte, world) = h.fgetc f vm.world in
      elim byte [
        | none ↦
            put_channel chan (record ch { status = 3 })
              (record vm { world = world; cpu = next (vm_push_number (num h 0) vm.cpu) })
        | some b ↦
            put_channel chan (record ch { status = 1; position = ch.position +ℤ pos 1 })
              (record vm { world = world; cpu = next (vm_push_number (num h b) vm.cpu) })
      ]

  unfoldable pub op_get : Vm h → Option (Vm h)
  unfolding with_file get_byte
  op_get vm =
      let (channel, c₁) = vm_pop_number vm.cpu in
      with_file (h.to_int channel) get_byte (record vm { cpu = c₁ })

  unfoldable pub put_byte : ℕ → ℕ → Channel h → h.File → Vm h → Option (Vm h)
  unfolding put_channel
  put_byte byte chan ch f vm =
      let (written, world) = h.fputc byte f vm.world in
      put_channel chan
        (if written
          then record ch { status = 1; position = ch.position +ℤ pos 1 }
          else record ch { status = 144 })
        (record vm { world = world; cpu = next vm.cpu })

  unfoldable pub op_put : Vm h → Option (Vm h)
  unfolding with_file put_byte
  op_put vm =
      let (value, c₁) = vm_pop_number vm.cpu in
      let (channel, c₂) = vm_pop_number c₁ in
      with_file (h.to_int channel) (put_byte (low_byte (h.to_int value))) (record vm { cpu = c₂ })

  unfoldable pub note_position : ℕ → Channel h → h.File → Vm h → Option (Vm h)
  unfolding put_channel
  note_position chan ch f vm =
      let at = h.ftell f vm.world in
      put_channel chan (record ch { position = at })
        (record vm {
          cpu = next (
              vm_push_number (h.of_int (byte_of_sector at))
                (vm_push_number (h.of_int (sector_of at)) vm.cpu));
        })

  unfoldable pub op_note : Vm h → Option (Vm h)
  unfolding with_file note_position
  op_note vm =
      let (channel, c₁) = vm_pop_number vm.cpu in
      with_file (h.to_int channel) note_position (record vm { cpu = c₁ })

  -- `(long)sector * 125 + (long)byte_pos`; overflow is undefined.
  unfoldable pub seek : h.Double → h.Double → ℕ → Channel h → h.File → Vm h → Option (Vm h)
  unfolding put_channel
  seek sector byte_pos chan ch f vm = do
    product ← int64 (h.to_long sector *ℤ pos 125)
    at ← int64 (product +ℤ h.to_long byte_pos)
    let moved = h.fseek f at vm.world
    put_channel chan
        (if moved.0 then record ch { status = 0; position = at } else record ch { status = 1 })
        (record vm { world = moved.1; cpu = next vm.cpu })

  unfoldable pub op_point : Vm h → Option (Vm h)
  unfolding with_file seek
  op_point vm =
      let (byte_pos, c₁) = vm_pop_number vm.cpu in
      let (sector, c₂) = vm_pop_number c₁ in
      let (channel, c₃) = vm_pop_number c₂ in
      with_file (h.to_int channel) (seek sector byte_pos) (record vm { cpu = c₃ })

  unfoldable pub op_status : List (Channel h) → Cpu h → Option (Cpu h)
  op_status channels c₀ =
      let (channel, c₁) = vm_pop_number c₀ in
      let chan = h.to_int channel in
      let known : Option (Cpu h) = (do
        ch ← get_elem? channels (pos_part chan)
        some (next (vm_push_number (num h ch.status) c₁))) in
      if valid_channel chan then known else some (next (vm_push_number (num h 1) c₁))

  -- Commands 3 and 8 of XIO. Where the file does not open, `device` is freed twice.
  unfoldable pub xio_open : OpenMode → Str → ℕ → Vm h → Option (Vm h)
  unfolding close_handle put_channel advance
  xio_open mode device chan vm = do
    ch ← get_elem? vm.channels chan
    let vm₁ = close_handle ch.handle vm
    let result = h.fopen device mode vm₁.world
    elim result.0 [
      | none ↦ none
      | some f ↦ do
        vm₂ ← put_channel chan (record ch { handle = some f }) vm₁
        some (advance (record vm₂ { world = result.1 }))
    ]

  -- Command 12.
  unfoldable pub xio_close : ℕ → Vm h → Option (Vm h)
  unfolding close_handle put_channel advance
  xio_close chan vm = do
    ch ← get_elem? vm.channels chan
    vm₁ ← put_channel chan (record ch { handle = none }) (close_handle ch.handle vm)
    some (advance vm₁)

  -- Command 34; `device` is freed twice where the file cannot be deleted.
  unfoldable pub xio_delete : Str → Vm h → Option (Vm h)
  unfolding advance
  xio_delete device vm =
      let (removed, world) = h.remove device vm.world in
      if removed
      then some (
          advance (record vm {
            world =
                h.printf
                  (70
                    ∷ 105
                    ∷ 108
                    ∷ 101
                    ∷ 32
                    ∷ 39
                    ∷ (device ++ (39 ∷ 32 ∷ 100 ∷ 101 ∷ 108 ∷ 101 ∷ 116 ∷ 101 ∷ 100 ∷ 10 ∷ [])))
                  world;
          }))
      else none

  -- An unknown command frees `device` twice as well.
  unfoldable pub xio_command : ℤ → Str → ℕ → Vm h → Option (Vm h)
  unfolding xio_open xio_close xio_delete
  xio_command command device chan vm =
      let code = pos_part command in
      if code == 3
      then xio_open rb device chan vm
      else if code == 8
      then xio_open wb device chan vm
      else if code == 12
      then xio_close chan vm
      else if code == 34
      then xio_delete device vm
      else none

  unfoldable pub op_xio : Vm h → Option (Vm h)
  unfolding xio_command fail
  op_xio vm =
      let (device, c₁) = vm_pop_string vm.cpu in
      let (_, c₂) = vm_pop_number c₁ in
      let (_, c₃) = vm_pop_number c₂ in
      let (channel_d, c₄) = vm_pop_number c₃ in
      let (command_d, c₅) = vm_pop_number c₄ in
      let channel = h.to_int channel_d in
      let vm₁ = record vm { cpu = c₅ } in
      if valid_channel channel
      then xio_command (h.to_int command_d) device (pos_part channel) vm₁
      else some (fail err_bad_file_number vm₁)
