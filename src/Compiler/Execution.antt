-- ===== src/Compiler/Execution.antt =====
-- The instructions of an expression on the machine of src/vm.c.
use basset_lang.Prelude.{
  ℕ, zero, suc, ◌+◌, ◌%◌, ◌^◌, ◌<◌, ◌≡◌, refl, sym, ◌∙◌, arith, Bool, true, false, inl, inr, none,
  some, List, get_elem?, if◌then◌else◌, Option-cases,
}
use basset_lang.Host.{Host}
use basset_lang.Bytecode.{Op, Instruction}
use basset_lang.Vm.State.{Value, Vm}
use basset_lang.Vm.Arith.{}
use basset_lang.Vm.Execute.{execute, step, vm_execute, finish}
use basset_lang.Compiler.Meaning.{}

pub if_false {ℓ} : {A : Type ℓ} (b : Bool) (x y : A) → b ≡ false → (if b then x else y) ≡ y
if_false true x y e = cc
if_false false x y e = refl

pub if_true {ℓ} : {A : Type ℓ} (b : Bool) (x y : A) → b ≡ true → (if b then x else y) ≡ x
if_true true x y e = refl
if_true false x y e = cc

module _ {h : Host} where
  -- The machine at an instruction with a stack; the rest of it is as given.
  abbrev pub at : Vm h → ℕ → List (Value h) → ℕ → Vm h
  at vm pc stack capacity = record vm {
    cpu = record vm.cpu {
      pc = pc;
      stack = stack;
      stack_capacity = capacity;
      trap_triggered = false;
    };
  }

  -- A run from an instruction to another one.
  pub record Runs (vm : Vm h) (pc : ℕ) (stack : List (Value h)) (capacity pc' : ℕ)
      (stack' : List (Value h)) : Type 0 where
    pub rounds : ℕ
    pub capacity' : ℕ
    pub run : vm_execute rounds (at vm pc stack capacity) ≡ some (at vm pc' stack' capacity')

  -- One instruction.
  pub record Executes (vm : Vm h) (op : Op) (operand pc : ℕ) (stack : List (Value h)) (capacity : ℕ)
      (stack' : List (Value h)) : Type 0 where
    pub capacity' : ℕ
    pub done :
        execute op operand (at vm pc stack capacity)
        ≡ some (at vm ((pc + 1) % 2 ^ 32) stack' capacity')

  vm_execute-append :
      (m n : ℕ) (vm vm' : Vm h)
      → vm_execute m vm ≡ some vm'
      → vm_execute (m + n) vm ≡ vm_execute n vm'
  unfolding vm_execute
  vm_execute-append zero n vm vm' e =
      let same : vm ≡ vm' = cc in let count : 0 + n ≡ n = omega arith in rw (count, same) refl
  vm_execute-append (suc m) n vm vm' e =
      let count : suc m + n ≡ suc (m + n) = omega arith in
      rw count (elim (Option-cases (step vm)) [
        | inl q ↦ let r : vm_execute (suc m) vm ≡ none = rw q refl in cc
        | inr (after, q) ↦
            let r : vm_execute m after ≡ some vm' =
              (let t : vm_execute (suc m) vm ≡ vm_execute m after = rw q refl in sym t ∙ e) in
            rw q (vm_execute-append m n after vm' r)
      ])

  pub Runs-append :
      (vm : Vm h) {p q r : ℕ} {s t u : List (Value h)} {c : ℕ}
      → (first : Runs vm p s c q t) → Runs vm q t first.capacity' r u
      → Runs vm p s c r u
  Runs-append vm {p} {q} {r} {s} {t} {u} {c} first second = record {
    rounds = first.rounds + second.rounds;
    capacity' = second.capacity';
    run =
        vm_execute-append first.rounds second.rounds (at vm p s c) (at vm q t first.capacity')
          first.run
        ∙ second.run;
  }

  pub Executes-run :
      (vm : Vm h) (inst : Instruction) (pc : ℕ) (s t : List (Value h)) (c : ℕ)
      → vm.cpu.running ≡ true
      → pc + 1 < 2 ^ 32
      → get_elem? vm.program.code pc ≡ some inst
      → Executes vm inst.opcode inst.operand pc s c t
      → Runs vm pc s c (pc + 1) t
  unfolding step vm_execute finish
  Executes-run vm inst pc s t c on small here x =
      let whole : (pc + 1) % 2 ^ 32 ≡ pc + 1 = omega arith in
      let after : step (at vm pc s c) ≡ some (at vm ((pc + 1) % 2 ^ 32) t x.capacity') =
        if_true vm.cpu.running _ _ on ∙ rw (here, x.done) refl in
      record { rounds = 1; capacity' = x.capacity'; run = rw (after, whole) refl }

pub some_injective {ℓ} : {A : Type ℓ} (a b : A) → some a ≡ some b → a ≡ b
some_injective a b e = cc
