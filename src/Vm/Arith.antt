-- ===== src/Vm/Arith.antt =====
-- src/vm.c, "Arithmetic Operations" to "Logical Operations".
use Prim.Native.Nat.{compare, Ordering}
use basset_lang.Prelude.{Bool, true, false, not, ◌&&◌, ◌||◌, [], ◌∷◌, if◌then◌else◌}
use basset_lang.Host.{Host, Str}
use basset_lang.Vm.State.{Value, number, string, Cpu}
use basset_lang.Vm.Stack.{
  num, next, vm_error, vm_push_number, vm_pop, vm_pop_number, err_division_by_zero,
  err_type_mismatch,
}

-- `strcmp`, by the values of the bytes.
unfoldable pub strcmp : Str → Str → Ordering
strcmp [] [] = Ordering.eq
strcmp [] (_ ∷ _) = Ordering.lt
strcmp (_ ∷ _) [] = Ordering.gt
strcmp (a ∷ s) (b ∷ t) =
    let rest = strcmp s t in
    elim (compare a b) [
      | Ordering.lt ↦ Ordering.lt
      | Ordering.eq ↦ rest
      | Ordering.gt ↦ Ordering.gt
    ]

-- A C truth value as a double.
abbrev pub truth : (h : Host) → Bool → h.Double
truth h b = if b then num h 1 else num h 0

module _ {h : Host} where
  -- OP_ADD, OP_SUB, OP_MUL and OP_MOD stop where a pop has entered the trap handler.
  unfoldable pub op_checked : (h.Double → h.Double → h.Double) → Cpu h → Cpu h
  op_checked f c₀ =
      let (b, c₁) = vm_pop_number c₀ in
      if c₁.trap_triggered
      then c₁
      else let (a, c₂) = vm_pop_number c₁ in
        if c₂.trap_triggered then c₂ else next (vm_push_number (f a b) c₂)

  -- The branch of OP_DIV on a zero divisor.
  division_by_zero : Cpu h → Cpu h
  division_by_zero c₂ =
      let c₃ = vm_error err_division_by_zero "DIVISION BY ZERO" c₂ in
      if c₃.trap_triggered then record c₃ { trap_triggered = false } else next c₃

  unfoldable pub op_div : Cpu h → Cpu h
  unfolding division_by_zero
  op_div c₀ =
      let (b, c₁) = vm_pop_number c₀ in
      let (a, c₂) = vm_pop_number c₁ in
      if h.eq b (num h 0) then division_by_zero c₂ else next (vm_push_number (h.div a b) c₂)

  -- OP_POW, OP_AND and OP_OR: two numbers, with no test of the trap.
  unfoldable pub op_binary : (h.Double → h.Double → h.Double) → Cpu h → Cpu h
  op_binary f c₀ =
      let (b, c₁) = vm_pop_number c₀ in
      let (a, c₂) = vm_pop_number c₁ in next (vm_push_number (f a b) c₂)

  -- OP_NEG, OP_NOT and the mathematical functions of one number that cannot fail.
  unfoldable pub op_unary : (h.Double → h.Double) → Cpu h → Cpu h
  op_unary f c₀ = let (a, c₁) = vm_pop_number c₀ in next (vm_push_number (f a) c₁)

  unfoldable pub op_and : Cpu h → Cpu h
  unfolding op_binary
  op_and = op_binary λ a b. truth h (not (h.eq a (num h 0)) && not (h.eq b (num h 0)))

  unfoldable pub op_or : Cpu h → Cpu h
  unfolding op_binary
  op_or = op_binary λ a b. truth h (not (h.eq a (num h 0)) || not (h.eq b (num h 0)))

  unfoldable pub op_not : Cpu h → Cpu h
  unfolding op_unary
  op_not = op_unary λ a. truth h (h.eq a (num h 0))

  -- The result of a comparison of `a` with `b`, and whether they can be compared.
  unfoldable pub compare_values :
      (h.Double → h.Double → Bool) → (Ordering → Bool) → Bool → Value h → Value h → Bool × Bool
  compare_values on_numbers on_strings mismatch (number a) (number b) = (on_numbers a b, true)
  compare_values on_numbers on_strings mismatch (string s) (string t) =
      (on_strings (strcmp s t), true)
  compare_values on_numbers on_strings mismatch _ _ = (mismatch, false)

  -- The six comparisons; `mismatch` is the result on a number and a string.
  unfoldable pub op_compare :
      (h.Double → h.Double → Bool) → (Ordering → Bool) → Bool → Cpu h → Cpu h
  unfolding compare_values
  op_compare on_numbers on_strings mismatch c₀ =
      let (b, c₁) = vm_pop c₀ in
      let (a, c₂) = vm_pop c₁ in
      let (result, same_type) = compare_values on_numbers on_strings mismatch a b in
      let c₃ = if same_type then c₂ else vm_error err_type_mismatch "TYPE MISMATCH" c₂ in
      next (vm_push_number (truth h result) c₃)

abbrev pub is_eq : Ordering → Bool
is_eq o = elim o [ Ordering.eq ↦ true | _ ↦ false ]

abbrev pub is_lt : Ordering → Bool
is_lt o = elim o [ Ordering.lt ↦ true | _ ↦ false ]

abbrev pub is_gt : Ordering → Bool
is_gt o = elim o [ Ordering.gt ↦ true | _ ↦ false ]

module _ {h : Host} where
  unfoldable pub op_eq : Cpu h → Cpu h
  unfolding op_compare
  op_eq = op_compare h.eq is_eq false

  unfoldable pub op_ne : Cpu h → Cpu h
  unfolding op_compare
  op_ne = op_compare (λ a b. not (h.eq a b)) (λ o. not (is_eq o)) true

  unfoldable pub op_lt : Cpu h → Cpu h
  unfolding op_compare
  op_lt = op_compare h.lt is_lt false

  unfoldable pub op_le : Cpu h → Cpu h
  unfolding op_compare
  op_le = op_compare h.le (λ o. not (is_gt o)) false

  unfoldable pub op_gt : Cpu h → Cpu h
  unfolding op_compare
  op_gt = op_compare (λ a b. h.lt b a) is_gt false

  unfoldable pub op_ge : Cpu h → Cpu h
  unfolding op_compare
  op_ge = op_compare (λ a b. h.le b a) (λ o. not (is_lt o)) false
