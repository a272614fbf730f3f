-- ===== src/Vm/Math.antt =====
-- src/vm.c, "Math Functions", the simulated memory, and the random numbers.
use basset_lang.Prelude.{
  ℕ, ◌+◌, ◌*◌, ◌/◌, ◌%◌, ◌^◌, ℤ, negsuc, pos_part, neg_part, low_byte, Bool, ◌&&◌, String, Option,
  none, some, ltb, leb, ◌==◌, if◌then◌else◌, ◌>>=◌,
}
use basset_lang.Host.{Host}
use basset_lang.Vm.State.{Cpu, Random}
use basset_lang.Vm.Stack.{num, next, vm_error, vm_push_number, vm_pop_number, err_illegal_function}
use basset_lang.Vm.Arith.{op_unary}

-- The linear congruential generator on a `uint32_t`.
unfoldable pub lcg : ℕ → ℕ
lcg seed = (seed * 214013 + 2531011) % 2 ^ 32

-- `if (seed == 0) seed = 1`
abbrev pub non_zero : ℕ → ℕ
non_zero seed = if seed == 0 then 1 else seed

-- Whether PEEK and POKE accept the address.
abbrev pub valid_address : ℤ → Bool
valid_address addr = (neg_part addr == 0) && leb (pos_part addr) 65535

-- A read and a write of the buffer of 64 KB, undefined outside it.
abbrev pub read_memory : (ℕ → ℕ) → ℕ → Option ℕ
read_memory m addr = if ltb addr 65536 then some (m addr) else none

abbrev pub write_memory : (ℕ → ℕ) → ℕ → ℕ → Option (ℕ → ℕ)
write_memory m addr v = if ltb addr 65536 then some (λ a. if a == addr then v else m a) else none

abbrev pub to_radians : (h : Host) → h.Double → h.Double
to_radians h x = h.div (h.mul x h.m_pi) (num h 180)

module _ {h : Host} where
  -- OP_FUNC_SIN, OP_FUNC_COS and OP_FUNC_TAN
  unfoldable pub op_angle : (h.Double → h.Double) → Bool → Cpu h → Cpu h
  unfolding op_unary
  op_angle f deg_mode = op_unary λ x. if deg_mode then f (to_radians h x) else f x

  unfoldable pub op_atn : Bool → Cpu h → Cpu h
  unfolding op_unary
  op_atn deg_mode =
      op_unary λ x. if deg_mode then h.div (h.mul (h.atan x) (num h 180)) h.m_pi else h.atan x

  -- OP_FUNC_LOG, OP_FUNC_CLOG and OP_FUNC_SQR: an error on the arguments that `bad` picks.
  unfoldable pub op_partial : (h.Double → Bool) → String → (h.Double → h.Double) → Cpu h → Cpu h
  op_partial bad message f c₀ =
      let (x, c₁) = vm_pop_number c₀ in
      let c₂ = vm_error err_illegal_function message c₁ in
      if bad x then (if c₂.trap_triggered then c₂ else next c₂) else next (vm_push_number (f x) c₁)

  unfoldable pub op_log : Cpu h → Cpu h
  unfolding op_partial
  op_log = op_partial (λ x. h.le x (num h 0)) "LOG OF NEGATIVE NUMBER" h.log

  unfoldable pub op_clog : Cpu h → Cpu h
  unfolding op_partial
  op_clog = op_partial (λ x. h.le x (num h 0)) "LOG OF NEGATIVE NUMBER" h.log10

  unfoldable pub op_sqr : Cpu h → Cpu h
  unfolding op_partial
  op_sqr = op_partial (λ x. h.lt x (num h 0)) "SQRT OF NEGATIVE NUMBER" h.sqrt

  unfoldable pub op_sgn : Cpu h → Cpu h
  unfolding op_unary
  op_sgn = op_unary λ x.
      if h.lt (num h 0) x
      then num h 1
      else if h.lt x (num h 0)
      then h.of_int (negsuc 0)
      else num h 0

  -- The next number, from the upper 16 bits of the new seed.
  unfoldable pub draw : ℕ → Random h
  draw seed =
      let seed' = lcg seed in
      record { rnd_seed = seed'; last_rnd = h.div (num h (seed' / 65536)) (num h 65536) }

  unfoldable pub rnd : h.Double → Random h → Random h
  rnd x r =
      if h.lt x (num h 0)
      then draw (non_zero (h.to_u32 (h.mul (h.fabs x) (num h 1000000))))
      else if h.eq x (num h 0)
      then r
      else draw r.rnd_seed

  unfoldable pub op_rnd : Random h → Cpu h → Cpu h × Random h
  op_rnd r c₀ =
      let (x, c₁) = vm_pop_number c₀ in
      let r' = rnd x r in (next (vm_push_number r'.last_rnd c₁), r')

  unfoldable pub op_randomize : Cpu h → Cpu h × Random h
  op_randomize c₀ =
      let (seed_val, c₁) = vm_pop_number c₀ in
      (next c₁, draw (non_zero (h.to_u32 (h.fabs seed_val))))

  unfoldable pub op_peek : (ℕ → ℕ) → Cpu h → Option (Cpu h)
  op_peek memory c₀ =
      let (addr_d, c₁) = vm_pop_number c₀ in
      let addr = h.to_int addr_d in
      if valid_address addr
      then read_memory memory (pos_part addr)
        >>= (λ value. some (next (vm_push_number (num h value) c₁)))
      else some (vm_error err_illegal_function "ILLEGAL ADDRESS IN PEEK" c₁)

  unfoldable pub op_poke : (ℕ → ℕ) → Cpu h → Option (Cpu h × (ℕ → ℕ))
  op_poke memory c₀ =
      let (value_d, c₁) = vm_pop_number c₀ in
      let (addr_d, c₂) = vm_pop_number c₁ in
      let addr = h.to_int addr_d in
      if valid_address addr
      then write_memory memory (pos_part addr) (low_byte (h.to_int value_d))
        >>= (λ memory'. some (next c₂, memory'))
      else some (vm_error err_illegal_function "ILLEGAL ADDRESS IN POKE" c₂, memory)
