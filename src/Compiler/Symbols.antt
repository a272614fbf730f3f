-- ===== src/Compiler/Symbols.antt =====
-- The symbol table of src/compiler.c: lookup after an addition, and the limits.
use basset_lang.Prelude.{
  ℕ, suc, ◌+◌, ◌%◌, ◌^◌, ◌<◌, ◌≤◌, ◌≡◌, refl, arith, ℤ, pos, negsuc, true, false, Bool-cases, inl,
  inr, List, [], ◌∷◌, ◌++◌, length, leb, if◌then◌else◌,
}
use basset_lang.Host.{Host, Str}
use basset_lang.Program.{VarType, VariableInfo}
use basset_lang.Compiler.{
  CompilerState, new_variable, compiler_find_variable, compiler_add_variable, VarClass, string_var,
  array_var, numeric_var, class_of, same_class, count_class, limit_of,
}

count-append :
    (k : VarClass) (table : List VariableInfo) (v : VariableInfo)
    → count_class k (table ++ (v ∷ []))
      ≡ count_class k table + (if same_class k (class_of v.type) then 1 else 0)
unfolding count_class
count-append k [] v = elim (Bool-cases (same_class k (class_of v.type))) [
  | inl e ↦ rw e refl
  | inr e ↦ rw e refl
]
count-append k (x ∷ table) v = elim (Bool-cases (same_class k (class_of x.type))) [
  | inl e ↦ rw e (omega (arith, count-append k table v))
  | inr e ↦ rw e (count-append k table v)
]

-- Every variable is of one of the three classes.
count-length :
    (table : List VariableInfo)
    → length table
      ≡ count_class string_var table + count_class array_var table + count_class numeric_var table
unfolding count_class
count-length [] = refl
count-length (v ∷ table) = by_class (class_of v.type) (count-length table)
  where
    by_class :
        (k : VarClass)
        → length table
          ≡ count_class string_var table
            + count_class array_var table
            + count_class numeric_var table
        → suc (length table)
          ≡ (if same_class string_var k
              then suc (count_class string_var table)
              else count_class string_var table)
            + (if same_class array_var k
                then suc (count_class array_var table)
                else count_class array_var table)
            + (if same_class numeric_var k
                then suc (count_class numeric_var table)
                else count_class numeric_var table)
    by_class string_var e = omega arith
    by_class array_var e = omega arith
    by_class numeric_var e = omega arith

-- No class has more variables than its limit.
abbrev pub WithinLimits : List VariableInfo → Type 0
WithinLimits table = (k : VarClass) → count_class k table ≤ limit_of k

within_length : (table : List VariableInfo) → WithinLimits table → length table ≤ 320
within_length table within =
    omega (arith, count-length table, within string_var, within array_var, within numeric_var)

leb_false→lt : (a b : ℕ) → leb a b ≡ false → b < a
leb_false→lt a b h = ground arith

room_for :
    (table : List VariableInfo) (k c : VarClass)
    → count_class k table ≤ limit_of k
    → count_class c table < limit_of c
    → count_class k table + (if same_class k c then 1 else 0) ≤ limit_of k
room_for table string_var string_var within room = omega arith
room_for table string_var array_var within room = omega arith
room_for table string_var numeric_var within room = omega arith
room_for table array_var string_var within room = omega arith
room_for table array_var array_var within room = omega arith
room_for table array_var numeric_var within room = omega arith
room_for table numeric_var string_var within room = omega arith
room_for table numeric_var array_var within room = omega arith
room_for table numeric_var numeric_var within room = omega arith

-- A variable that has room leaves every class within its limit.
within_append :
    (table : List VariableInfo) (name : Str) (slot : ℕ) (type : VarType)
    → WithinLimits table
    → leb (limit_of (class_of type)) (count_class (class_of type) table) ≡ false
    → WithinLimits (table ++ (new_variable name slot type ∷ []))
unfolding new_variable
within_append table name slot type within room k =
    rw (count-append k table (new_variable name slot type))
      (room_for table k (class_of type) (within k) (leb_false→lt _ _ room))

module _ {h : Host} where
  add_known :
      (name : Str) (type : VarType) (cs : CompilerState h) (slot : ℕ)
      → compiler_find_variable cs name ≡ pos slot
      → compiler_add_variable name type cs ≡ (pos slot, cs)
  unfolding compiler_add_variable
  add_known name type cs slot e = rw (compiler_add_variable, e) refl

  add_full :
      (name : Str) (type : VarType) (cs : CompilerState h) (n : ℕ)
      → compiler_find_variable cs name ≡ negsuc n
      → leb (limit_of (class_of type)) (count_class (class_of type) cs.program.var_table) ≡ true
      → compiler_add_variable name type cs ≡ (negsuc 0, cs)
  unfolding compiler_add_variable
  add_full name type cs n e full = rw (compiler_add_variable, e) (rw full refl)

  -- The state with a new variable at the end of the table.
  unfoldable pub extended : Str → VarType → CompilerState h → CompilerState h
  extended name type cs =
      let table = cs.program.var_table in
      let v = new_variable name (length table % 2 ^ 16) type in
      record cs { program = record cs.program { var_table = table ++ (v ∷ []) } }

  add_new :
      (name : Str) (type : VarType) (cs : CompilerState h) (n : ℕ)
      → compiler_find_variable cs name ≡ negsuc n
      → leb (limit_of (class_of type)) (count_class (class_of type) cs.program.var_table) ≡ false
      → compiler_add_variable name type cs
        ≡ (pos (length cs.program.var_table % 2 ^ 16), extended name type cs)
  unfolding compiler_add_variable extended
  add_new name type cs n e room = rw (compiler_add_variable, e) (rw room refl)

  -- The three outcomes of an addition.
  pub add_cases :
      (P : ℤ × CompilerState h → Type 0) (name : Str) (type : VarType) (cs : CompilerState h)
      → ((slot : ℕ) → compiler_find_variable cs name ≡ pos slot → P (pos slot, cs))
      → P (negsuc 0, cs)
      → ((n : ℕ)
          → compiler_find_variable cs name ≡ negsuc n
          → leb (limit_of (class_of type)) (count_class (class_of type) cs.program.var_table)
            ≡ false
          → P (pos (length cs.program.var_table % 2 ^ 16), extended name type cs))
      → P (compiler_add_variable name type cs)
  add_cases P name type cs known full new =
      let result = compiler_find_variable cs name in go result refl
    where
      go : (r : ℤ) → compiler_find_variable cs name ≡ r → P (compiler_add_variable name type cs)
      go (pos slot) e = rw (add_known name type cs slot e) (known slot e)
      go (negsuc n) e =
          elim (Bool-cases
            (leb (limit_of (class_of type)) (count_class (class_of type) cs.program.var_table))) [
              | inl b ↦ rw (add_full name type cs n e b) full
              | inr b ↦ rw (add_new name type cs n e b) (new n e b)
            ]

  -- An addition keeps each class of variables within its limit, and with that the table has at most 320
  -- variables: a slot always fits into 16 bits.
  pub compiler_add_variable-WithinLimits :
      (name : Str) (type : VarType) (cs : CompilerState h)
      → WithinLimits cs.program.var_table
      → WithinLimits (compiler_add_variable name type cs).1.program.var_table
        × (length (compiler_add_variable name type cs).1.program.var_table ≤ 320)
  unfolding extended
  compiler_add_variable-WithinLimits name type cs within =
      let kept : WithinLimits (compiler_add_variable name type cs).1.program.var_table =
        add_cases (λ r. WithinLimits r.1.program.var_table) name type cs (λ slot e. within) within
          (λ n e room. within_append cs.program.var_table name _ type within room) in
      (kept, within_length _ kept)
