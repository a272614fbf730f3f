-- ===== src/Compiler/Growth.antt =====
-- How the steps of an expression grow the code of src/compiler.c, and what the new code does when it runs.
use mathlib.Core.Path.{subst}
use basset_lang.Prelude.{
  ℕ, ◌+◌, ◌^◌, ◌<◌, ◌≤◌, ◌≡◌, refl, ap, ◌∙◌, arith, true, some, Option, List, [], ◌∷◌, length,
  length-append, get_elem?, inl, inr, ◌>>=◌,
}
use basset_lang.Host.{Host}
use basset_lang.Bytecode.{Op, Instruction}
use basset_lang.Vm.State.{Value, number, Vm}
use basset_lang.Compiler.{CompilerState, compiler_add_const, compiler_emit}
use basset_lang.Compiler.Emit.{Step, ◌>=>◌, emit, push_number}
use basset_lang.Compiler.Pools.{
  get_elem?-append_left, get_elem?-append_last, kept_const, added_const, const_only,
}
use basset_lang.Compiler.Meaning.{IsExact}
use basset_lang.Compiler.Execution.{Runs, Runs-append, Executes, Executes-run}
use basset_lang.Compiler.Operators.{push_const_lem}

bind_some {ℓ} :
    {A B : Type ℓ} (m : Option A) (f : A → Option B) (a : A) → m ≡ some a → (m >>= f) ≡ f a
bind_some m f a e = rw e refl

module _ {h : Host} where
  -- The code and the pool keep what they have, and the table of variables stays.
  pub record Grows (cs cs' : CompilerState h) : Type 0 where
    pub code :
        (i : ℕ) (inst : Instruction)
        → get_elem? cs.program.code i ≡ some inst
        → get_elem? cs'.program.code i ≡ some inst
    pub pool :
        (i : ℕ) (x : h.Double)
        → get_elem? cs.program.const_pool i ≡ some x
        → get_elem? cs'.program.const_pool i ≡ some x
    pub longer : length cs.program.code ≤ length cs'.program.code
    pub more : length cs.program.const_pool ≤ length cs'.program.const_pool
    pub table : cs'.program.var_table ≡ cs.program.var_table

  Grows-trans : (a b c : CompilerState h) → Grows a b → Grows b c → Grows a c
  Grows-trans a b c g k = record {
    code = λ i inst e. k.code i inst (g.code i inst e);
    pool = λ i x e. k.pool i x (g.pool i x e);
    longer = let p = g.longer in let q = k.longer in omega arith;
    more = let p = g.more in let q = k.more in omega arith;
    table = k.table ∙ g.table;
  }

  -- The machine runs a program that has the code between the two states, and their pool, where the code
  -- is below the limits of a program counter and of an index.
  pub record Fits (vm : Vm h) (cs cs' : CompilerState h) : Type 0 where
    pub running : vm.cpu.running ≡ true
    pub short : length cs'.program.code < 2 ^ 32
    pub room : length cs'.program.const_pool < 2 ^ 16
    pub code :
        (i : ℕ) (inst : Instruction)
        → length cs.program.code ≤ i
        → get_elem? cs'.program.code i ≡ some inst
        → get_elem? vm.program.code i ≡ some inst
    pub pool :
        (i : ℕ) (x : h.Double)
        → get_elem? cs'.program.const_pool i ≡ some x
        → get_elem? vm.program.const_pool i ≡ some x

  Fits-first : (vm : Vm h) (a b c : CompilerState h) → Grows b c → Fits vm a c → Fits vm a b
  Fits-first vm a b c g f = record {
    running = f.running;
    short = let p = f.short in let q = g.longer in omega arith;
    room = let p = f.room in let q = g.more in omega arith;
    code = λ i inst far e. f.code i inst far (g.code i inst e);
    pool = λ i x e. f.pool i x (g.pool i x e);
  }

  Fits-second : (vm : Vm h) (a b c : CompilerState h) → Grows a b → Fits vm a c → Fits vm b c
  Fits-second vm a b c g f = record {
    running = f.running;
    short = f.short;
    room = f.room;
    code = λ i inst far e. f.code i inst (let p = g.longer in omega arith) e;
    pool = f.pool;
  }

  -- The step is defined, and its code takes the machine from the stacks `before s` to `after s`.
  pub record Does (vm : Vm h) (step : Step h) (cs : CompilerState h)
      (before after : List (Value h) → List (Value h)) : Type 0 where
    pub result : CompilerState h
    pub compiles : step cs ≡ some result
    pub grows : Grows cs result
    pub runs :
        Fits vm cs result
        → (s : List (Value h)) (c : ℕ)
        → Runs vm (length cs.program.code) (before s) c (length result.program.code) (after s)

  pub Does-append :
      (vm : Vm h) (f g : Step h) (cs : CompilerState h) (p q r : List (Value h) → List (Value h))
      → (first : Does vm f cs p q) → Does vm g first.result q r
      → Does vm (f >=> g) cs p r
  Does-append vm f g cs p q r first second = record {
    result = second.result;
    compiles = bind_some (f cs) g first.result first.compiles ∙ second.compiles;
    grows = Grows-trans cs first.result second.result first.grows second.grows;
    runs = λ fits s c.
        let one = first.runs (Fits-first vm cs first.result second.result second.grows fits) s c in
        Runs-append vm one (
          second.runs (Fits-second vm cs first.result second.result first.grows fits) s
            one.capacity');
  }

  Grows-emit : (op : Op) (n : ℕ) (cs : CompilerState h) → Grows cs (compiler_emit op n cs)
  unfolding compiler_emit
  Grows-emit op n cs = record {
    code = λ i inst e. get_elem?-append_left cs.program.code _ i inst e;
    pool = λ i x e. e;
    longer = omega (
      arith,
      length-append cs.program.code (record { opcode = op; flags = 0; operand = n } ∷ []),
    );
    more = omega arith;
    table = refl;
  }

  length-emit :
      (op : Op) (n : ℕ) (cs : CompilerState h)
      → length (compiler_emit op n cs).program.code ≡ length cs.program.code + 1
  unfolding compiler_emit
  length-emit op n cs = length-append cs.program.code _

  emit-get_elem? :
      (op : Op) (n : ℕ) (cs : CompilerState h)
      → get_elem? (compiler_emit op n cs).program.code (length cs.program.code)
        ≡ some (record { opcode = op; flags = 0; operand = n })
  unfolding compiler_emit
  emit-get_elem? op n cs = get_elem?-append_last cs.program.code _

  -- The last instruction runs.
  emit-Runs :
      (vm : Vm h) (op : Op) (n : ℕ) (cs : CompilerState h) (s t : List (Value h)) (c : ℕ)
      → Fits vm cs (compiler_emit op n cs)
      → Executes vm op n (length cs.program.code) s c t
      → Runs vm (length cs.program.code) s c (length (compiler_emit op n cs).program.code) t
  emit-Runs vm op n cs s t c fits x =
      let size = length-emit op n cs in
      let short = fits.short in
      rw size (
        Executes-run vm (record { opcode = op; flags = 0; operand = n }) (length cs.program.code) s
          t c fits.running (omega arith)
          (fits.code (length cs.program.code) _ (omega arith) (emit-get_elem? op n cs)) x)

  pub Does-emit :
      (vm : Vm h) (op : Op) (n : ℕ) (cs : CompilerState h) (p q : List (Value h) → List (Value h))
      → ((pc : ℕ) (s : List (Value h)) (c : ℕ) → Executes vm op n pc (p s) c (q s))
      → Does vm (emit op n) cs p q
  unfolding emit
  Does-emit vm op n cs p q x = record {
    result = compiler_emit op n cs;
    compiles = refl;
    grows = Grows-emit op n cs;
    runs = λ fits s c. emit-Runs vm op n cs (p s) (q s) c fits (x (length cs.program.code) s c);
  }

  Grows-add_const :
      (value : h.Double) (cs : CompilerState h) → Grows cs (compiler_add_const value cs).1
  Grows-add_const value cs =
      let (code, table, more) = const_only value cs in
      record {
        code = λ i inst e. rw code e;
        pool = λ i x e. kept_const value x i cs e;
        longer = rw code (omega arith);
        more = more;
        table = table;
      }

  pub Does-push_number :
      (vm : Vm h) (value : h.Double) (cs : CompilerState h)
      → IsExact vm value
      → Does vm (push_number value) cs (λ s. s) (λ s. number value ∷ s)
  unfolding push_number
  Does-push_number vm value cs exact =
      let mid = (compiler_add_const value cs).1 in
      let index = (compiler_add_const value cs).0 in
      let result = compiler_emit Op.push_const index mid in
      let first = Grows-add_const value cs in
      let second = Grows-emit Op.push_const index mid in
      let same : length mid.program.code ≡ length cs.program.code =
        ap length (const_only value cs).0 in
      record {
        result = result;
        compiles = refl;
        grows = Grows-trans cs mid result first second;
        runs = λ fits s c.
            let more = first.more in
            let more' = second.more in
            let room = fits.room in
            let (found, here, is) = added_const value cs (omega arith) in
            let stored = fits.pool index found (second.pool index found here) in
            let right : found ≡ value = elim is [
              | inl e ↦ e
              | inr e ↦ exact index found stored e
            ] in
            subst (λ n. Runs vm n s c (length result.program.code) (number value ∷ s)) same
              (emit-Runs vm Op.push_const index mid s (number value ∷ s) c
                (Fits-second vm cs mid result first fits)
                (push_const_lem h vm index (length mid.program.code) value s c
                  (stored ∙ ap (λ x. some x) right)));
      }
