-- ===== src/Compiler/Operators.antt =====
-- The opcodes of expressions on the machine of src/vm.c compute the operations of their meaning.
use Prim.Native.Nat.{Ordering}
use mathlib.Core.Path.{subst}
use basset_lang.Prelude.{
  not, ==_iff, ℕ, ◌+◌, ◌%◌, ◌^◌, ◌≡◌, refl, sym, ap, ◌∙◌, ◌==◌, Bool, true, false, Bool-cases, inl,
  inr, ◌⊎◌, Option, none, some, List, [], ◌∷◌, get_elem?, length,
}
use basset_lang.Host.{Host}
use basset_lang.Bytecode.{Op}
use basset_lang.Vm.State.{Value, number, Vm}
use basset_lang.Vm.Stack.{num, grown, next, vm_pop, vm_pop_number, vm_push, vm_push_number}
use basset_lang.Vm.Arith.{
  op_checked, op_div, op_binary, op_unary, op_and, op_or, op_not, op_compare, compare_values, op_eq,
  op_ne, op_lt, op_le, op_gt, op_ge, is_eq, is_lt, is_gt, truth,
}
use basset_lang.Vm.Jumps.{op_push_const, op_push_var}
use basset_lang.Vm.Execute.{execute, on_cpu}
use basset_lang.Tokens
use basset_lang.Compiler.Expressions.{opcode_of, binary_table, unary_opcode, function_opcode}
use basset_lang.Compiler.Meaning.{
  lookup, Binary, total, logical, divided, binary_values, unary_values, function_values,
}
use basset_lang.Compiler.Execution.{at, Executes, if_true, if_false, some_injective}

-- The opcode computes the operation, on any machine.
abbrev pub Implements₂ : (h : Host) → Op → Binary h → Type 0
Implements₂ h op f =
    (vm : Vm h) (pc : ℕ) (x y z : h.Double) (s : List (Value h)) (c : ℕ)
    → f x y ≡ some z
    → Executes vm op 0 pc (number y ∷ number x ∷ s) c (number z ∷ s)

abbrev pub Implements₁ : (h : Host) → Op → (h.Double → h.Double) → Type 0
Implements₁ h op f =
    (vm : Vm h) (pc : ℕ) (x : h.Double) (s : List (Value h)) (c : ℕ)
    → Executes vm op 0 pc (number x ∷ s) c (number (f x) ∷ s)

-- The first entry of a table, or a later one.
lookup-cons :
    {A : Type 0} (t token : ℕ) (a f : A) (rest : List (ℕ × A))
    → lookup ((t, a) ∷ rest) token ≡ some f
    → ((token ≡ t) × (a ≡ f)) ⊎ (lookup rest token ≡ some f)
unfolding lookup
lookup-cons t token a f rest e = elim (Bool-cases (token == t)) [
  | inl q ↦ inl (
    (==_iff token t).0 q,
    some_injective _ _ (sym (if_true (token == t) _ (lookup rest token) q) ∙ e),
  )
  | inr q ↦ inr (sym (if_false (token == t) (some a) _ q) ∙ e)
]

lookup-three :
    {A : Type 0} (t₁ t₂ t₃ token : ℕ) (a₁ a₂ a₃ f : A)
    → lookup ((t₁, a₁) ∷ (t₂, a₂) ∷ (t₃, a₃) ∷ []) token ≡ some f
    → ((token ≡ t₁) × (a₁ ≡ f)) ⊎ (((token ≡ t₂) × (a₂ ≡ f)) ⊎ ((token ≡ t₃) × (a₃ ≡ f)))
unfolding lookup
lookup-three t₁ t₂ t₃ token a₁ a₂ a₃ f e =
    elim (lookup-cons t₁ token a₁ f ((t₂, a₂) ∷ (t₃, a₃) ∷ []) e) [
      | inl q ↦ inl q
      | inr e₁ ↦ inr (elim (lookup-cons t₂ token a₂ f ((t₃, a₃) ∷ []) e₁) [
        | inl q ↦ inl q
        | inr e₂ ↦ elim (lookup-cons t₃ token a₃ f [] e₂) [
          | inl q ↦ inr q
          | inr e₃ ↦ absurd (let t : none ≡ some f = e₃ in cc)
        ]
      ])
    ]

module _ (h : Host) where
  checked_lem :
      (op : Op) (f : h.Double → h.Double → h.Double)
      → ((vm : Vm h) → execute op 0 vm ≡ on_cpu vm (op_checked f vm.cpu))
      → Implements₂ h op (total h f)
  unfolding op_checked vm_pop_number vm_pop vm_push_number vm_push next on_cpu
  checked_lem op f is vm pc x y z s c e = record {
    capacity' = grown (length s) c;
    done =
        is (at vm pc (number y ∷ number x ∷ s) c)
        ∙ ap (λ v. some (at vm ((pc + 1) % 2 ^ 32) (number v ∷ s) (grown (length s) c)))
            (some_injective _ _ e);
  }

  binary_lem :
      (op : Op) (f : h.Double → h.Double → h.Double)
      → ((vm : Vm h) → execute op 0 vm ≡ on_cpu vm (op_binary f vm.cpu))
      → Implements₂ h op (total h f)
  unfolding op_binary vm_pop_number vm_pop vm_push_number vm_push next on_cpu
  binary_lem op f is vm pc x y z s c e = record {
    capacity' = grown (length s) c;
    done =
        is (at vm pc (number y ∷ number x ∷ s) c)
        ∙ ap (λ v. some (at vm ((pc + 1) % 2 ^ 32) (number v ∷ s) (grown (length s) c)))
            (some_injective _ _ e);
  }

  compare_lem :
      (op : Op) (f : h.Double → h.Double → Bool) (g : Ordering → Bool) (b : Bool)
      → ((vm : Vm h) → execute op 0 vm ≡ on_cpu vm (op_compare f g b vm.cpu))
      → Implements₂ h op (logical h f)
  unfolding op_compare compare_values vm_pop vm_push_number vm_push next on_cpu
  compare_lem op f g b is vm pc x y z s c e = record {
    capacity' = grown (length s) c;
    done =
        is (at vm pc (number y ∷ number x ∷ s) c)
        ∙ ap (λ v. some (at vm ((pc + 1) % 2 ^ 32) (number v ∷ s) (grown (length s) c)))
            (some_injective _ _ e);
  }

  div_lem : Implements₂ h Op.div (divided h)
  unfolding execute op_div vm_pop_number vm_pop vm_push_number vm_push next on_cpu
  div_lem vm pc x y z s c e = elim (Bool-cases (h.eq y (num h 0))) [
    | inl zero_y ↦
        let none_some : none ≡ some z =
          (let r : divided h x y ≡ none = rw zero_y refl in sym r ∙ e) in
        cc
    | inr q ↦
        let r : divided h x y ≡ some (h.div x y) = rw q refl in
        let same : h.div x y ≡ z = some_injective _ _ (sym r ∙ e) in
        record { capacity' = grown (length s) c; done = rw (q, same) refl }
  ]

  unary_lem :
      (op : Op) (f : h.Double → h.Double)
      → ((vm : Vm h) → execute op 0 vm ≡ on_cpu vm (op_unary f vm.cpu))
      → Implements₁ h op f
  unfolding op_unary vm_pop_number vm_pop vm_push_number vm_push next on_cpu
  unary_lem op f is vm pc x s c = record {
    capacity' = grown (length s) c;
    done = is (at vm pc (number x ∷ s) c);
  }

  -- The opcodes of the table compute the operations of the other one.
  abbrev pub AreImplemented : List (ℕ × Op) → List (ℕ × Binary h) → Type 0
  AreImplemented [] [] = Unit
  AreImplemented ((t, op) ∷ ops) ((t', f) ∷ fs) =
      (t ≡ t') × Implements₂ h op f × AreImplemented ops fs
  AreImplemented _ _ = ⊥

  pub binary_table_lem : AreImplemented binary_table (binary_values h)
  unfolding execute op_eq op_ne op_lt op_le op_gt op_ge op_and op_or
  binary_table_lem = (
    refl,
    checked_lem Op.add h.add (λ vm. refl),
    (
      refl,
      checked_lem Op.sub h.sub (λ vm. refl),
      (
        refl,
        checked_lem Op.mul h.mul (λ vm. refl),
        (
          refl,
          div_lem,
          (
            refl,
            binary_lem Op.pow h.pow (λ vm. refl),
            (
              refl,
              compare_lem Op.eq _ is_eq _ (λ vm. refl),
              (
                refl,
                compare_lem Op.ne _ (λ o. not (is_eq o)) _ (λ vm. refl),
                (
                  refl,
                  compare_lem Op.lt _ is_lt _ (λ vm. refl),
                  (
                    refl,
                    compare_lem Op.le _ (λ o. not (is_gt o)) _ (λ vm. refl),
                    (
                      refl,
                      compare_lem Op.gt _ is_gt _ (λ vm. refl),
                      (
                        refl,
                        compare_lem Op.ge _ (λ o. not (is_lt o)) _ (λ vm. refl),
                        (
                          refl,
                          binary_lem Op.and _ (λ vm. refl),
                          (refl, binary_lem Op.or _ (λ vm. refl), tt),
                        ),
                      ),
                    ),
                  ),
                ),
              ),
            ),
          ),
        ),
      ),
    ),
  )

  pub opcode_of-lookup :
      (ops : List (ℕ × Op)) (fs : List (ℕ × Binary h)) (token : ℕ) (f : Binary h)
      → AreImplemented ops fs
      → lookup fs token ≡ some f
      → (op : Op) × (opcode_of ops token ≡ some op) × Implements₂ h op f
  unfolding lookup opcode_of
  opcode_of-lookup [] [] token f good e = cc
  opcode_of-lookup [] (_ ∷ _) token f good e = absurd good
  opcode_of-lookup (_ ∷ _) [] token f good e = absurd good
  opcode_of-lookup ((t, op) ∷ ops) ((t', g) ∷ fs) token f (same, here, rest) e =
      elim (Bool-cases (token == t)) [
        | inl q ↦
            let q' : (token == t') ≡ true = rw (sym same) q in
            let r : g ≡ f = some_injective _ _ (sym (if_true (token == t') (some g) _ q') ∙ e) in
            (op, if_true (token == t) _ _ q, subst (λ k. Implements₂ h op k) r here)
        | inr q ↦
            let q' : (token == t') ≡ false = rw (sym same) q in
            let r : lookup fs token ≡ some f =
              sym (if_false (token == t') (some g) (lookup fs token) q') ∙ e in
            let (op', e', good) = opcode_of-lookup ops fs token f rest r in
            (op', if_false (token == t) _ _ q ∙ e', good)
      ]

  abbrev pub Unary : Option Op → (h.Double → h.Double) → Type 0
  Unary found f = (op : Op) × (found ≡ some op) × Implements₁ h op f

  found_opcode :
      (op : Op) (g f : h.Double → h.Double) → Implements₁ h op g → g ≡ f → Unary (some op) f
  found_opcode op g f good e = (op, refl, subst (λ k. Implements₁ h op k) e good)

  pub unary_opcode-lookup :
      (token : ℕ) (f : h.Double → h.Double)
      → lookup (unary_values h) token ≡ some f
      → Unary (unary_opcode token) f
  unfolding unary_opcode execute op_not lookup
  unary_opcode-lookup token f e =
      let not_lem = unary_lem Op.not (λ x. truth h (h.eq x (num h 0))) (λ vm. refl) in
      elim (lookup-three Tokens.tok_cminus Tokens.tok_cuminus Tokens.tok_cnot token h.neg h.neg
        (λ x. truth h (h.eq x (num h 0))) f e) [
          | inl (q, r) ↦ rw q (found_opcode Op.neg h.neg f (unary_lem Op.neg h.neg (λ vm. refl)) r)
          | inr (inl (q, r)) ↦
              rw q (found_opcode Op.neg h.neg f (unary_lem Op.neg h.neg (λ vm. refl)) r)
          | inr (inr (q, r)) ↦
              rw q (found_opcode Op.not (λ x. truth h (h.eq x (num h 0))) f not_lem r)
        ]

  pub function_opcode-lookup :
      (token : ℕ) (f : h.Double → h.Double)
      → lookup (function_values h) token ≡ some f
      → Unary (function_opcode token 1) f
  unfolding function_opcode opcode_of execute lookup
  function_opcode-lookup token f e =
      elim (lookup-three Tokens.tok_cexp_f Tokens.tok_cabs Tokens.tok_cint token h.exp h.fabs
        h.floor f e) [
          | inl (q, r) ↦
              rw q (found_opcode Op.func_exp h.exp f (unary_lem Op.func_exp h.exp (λ vm. refl)) r)
          | inr (inl (q, r)) ↦
              rw q (found_opcode Op.func_abs h.fabs f (unary_lem Op.func_abs h.fabs (λ vm. refl)) r)
          | inr (inr (q, r)) ↦
              rw q
                (found_opcode Op.func_int h.floor f (unary_lem Op.func_int h.floor (λ vm. refl)) r)
        ]

  -- The instructions that push a constant and a variable.
  pub push_const_lem :
      (vm : Vm h) (i pc : ℕ) (x : h.Double) (s : List (Value h)) (c : ℕ)
      → get_elem? vm.program.const_pool i ≡ some x
      → Executes vm Op.push_const i pc s c (number x ∷ s)
  unfolding execute op_push_const vm_push_number vm_push next
  push_const_lem vm i pc x s c e = record { capacity' = grown (length s) c; done = rw e refl }

  pub push_var_lem :
      (vm : Vm h) (i pc : ℕ) (x : h.Double) (s : List (Value h)) (c : ℕ)
      → get_elem? vm.store.num_vars i ≡ some x
      → Executes vm Op.push_var i pc s c (number x ∷ s)
  unfolding execute op_push_var vm_push_number vm_push next
  push_var_lem vm i pc x s c e = record { capacity' = grown (length s) c; done = rw e refl }
