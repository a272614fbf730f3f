-- ===== src/Vm/Arrays.antt =====
-- src/vm.c, "Array Operations" and "String Array Operations". `is_string` tells the two families
-- apart. An access outside the allocated cells, or with the pointer of the other member of the
-- union, is undefined.
use basset_lang.Prelude.{
  ℕ, ◌+◌, ◌*◌, ◌%◌, ◌^◌, Bool, true, false, ◌&&◌, Option, none, some, List, [], ◌∷◌, length,
  replicate, get_elem?, store_at, ltb, if◌then◌else◌, ◌>>=◌,
}
use basset_lang.Host.{Host, Str}
use basset_lang.Program.{VarType, var_array_1d, var_array_2d}
use basset_lang.Vm.State.{
  Value, number, string, Cpu, Cells, null, numbers, strings, ArrayData, Store,
}
use basset_lang.Vm.Stack.{
  num, next, vm_error, vm_push, vm_pop_number, vm_pop_string, err_overflow, err_subscript_range,
}

-- `(size_t)n + 1`
abbrev pub extent : ℕ → ℕ
extent n = (n + 1) % 2 ^ 64

unfoldable pub clear_numbers : (h : Host) → List h.Double → List h.Double
clear_numbers h [] = []
clear_numbers h (_ ∷ xs) = num h 0 ∷ clear_numbers h xs

module _ {h : Host} where
  -- `calloc`, and for strings the loop that fills it.
  unfoldable pub fresh : Bool → ℕ → Cells h
  unfolding replicate
  fresh true n = strings (replicate n [])
  fresh false n = numbers (replicate n (num h 0))

  unfoldable pub load_cell : Bool → Cells h → ℕ → Option (Value h)
  load_cell true (strings xs) i = do s ← get_elem? xs i; some (string s)
  load_cell false (numbers xs) i = do d ← get_elem? xs i; some (number d)
  load_cell _ _ i = none

  unfoldable pub store_cell : Cells h → ℕ → Value h → Option (Cells h)
  store_cell (numbers xs) i (number d) = do ys ← store_at xs i d; some (numbers ys)
  store_cell (strings xs) i (string s) = do ys ← store_at xs i s; some (strings ys)
  store_cell _ i _ = none

  unfoldable pub dimension : VarType → Bool → ℕ → ℕ → ℕ → ArrayData h
  unfolding fresh
  dimension type is_string dim1 dim2 cells = record {
    type = type;
    dim1 = dim1;
    dim2 = dim2;
    is_string = is_string;
    u = fresh is_string cells;
  }

  -- An array that is used before its DIM has the indices 0 to 10.
  unfoldable pub auto_dim_1d : Bool → ArrayData h → ArrayData h
  unfolding dimension
  auto_dim_1d is_string a = elim a.u [ null ↦ dimension var_array_1d is_string 11 0 11 | _ ↦ a ]

  unfoldable pub auto_dim_2d : Bool → ArrayData h → ArrayData h
  unfolding dimension
  auto_dim_2d is_string a = elim a.u [
    | null ↦ dimension var_array_2d is_string 11 11 (11 * 11)
    | _ ↦ a
  ]

  unfoldable pub put_array : ℕ → ArrayData h → Store h → Option (Store h)
  put_array slot a s = do arrays ← store_at s.arrays slot a; some (record s { arrays = arrays })

  unfoldable pub bounds_error : Cpu h → Cpu h
  bounds_error c₀ =
      let c₁ = vm_error err_subscript_range "ARRAY BOUNDS ERROR" c₀ in
      if c₁.trap_triggered then c₁ else next c₁

  -- The value that a cell is given, of the kind of the array.
  unfoldable pub pop_value : Bool → Cpu h → Value h × Cpu h
  pop_value true c₀ = let (s, c₁) = vm_pop_string c₀ in (string s, c₁)
  pop_value false c₀ = let (d, c₁) = vm_pop_number c₀ in (number d, c₁)

  -- The read and the write of a cell, after the bounds have been tested.
  unfoldable pub read_checked : Bool → Bool → ArrayData h → ℕ → Cpu h → Option (Cpu h)
  unfolding bounds_error load_cell
  read_checked false is_string a i c = some (bounds_error c)
  read_checked true is_string a i c = do v ← load_cell is_string a.u i; some (next (vm_push v c))

  unfoldable pub write_checked :
      Bool → ArrayData h → ℕ → Value h → ℕ → Store h → Cpu h → Option (Cpu h × Store h)
  unfolding bounds_error store_cell put_array
  write_checked false a i v slot s c = some (bounds_error c, s)
  write_checked true a i v slot s c = do
    u ← store_cell a.u i v
    s' ← put_array slot (record a { u = u }) s
    some (next c, s')

  unfoldable pub array_get_1d : Bool → ℕ → Store h → Cpu h → Option (Cpu h × Store h)
  unfolding auto_dim_1d put_array read_checked
  array_get_1d is_string slot s c₀ = do
    let index = vm_pop_number c₀
    let idx = h.to_size index.0
    old ← get_elem? s.arrays slot
    let a = auto_dim_1d is_string old
    s' ← put_array slot a s
    c' ← read_checked (ltb idx a.dim1) is_string a idx index.1
    some (c', s')

  -- Only the one-dimensional writes test the depth of the stack.
  unfoldable pub array_set_1d : Bool → ℕ → Store h → Cpu h → Option (Cpu h × Store h)
  unfolding auto_dim_1d put_array write_checked pop_value
  array_set_1d is_string slot s c₀ =
      let write = λ (value : Value h × Cpu h) (index : h.Double × Cpu h). (do
        let idx = h.to_size index.0
        old ← get_elem? s.arrays slot
        let a = auto_dim_1d is_string old
        s' ← put_array slot a s
        write_checked (ltb idx a.dim1) a idx value.0 slot s' index.1) in
      if ltb (length c₀.stack) 2
      then some (vm_error err_overflow "STACK UNDERFLOW" c₀, s)
      else write (pop_value is_string c₀) (vm_pop_number (pop_value is_string c₀).1)

  unfoldable pub array_get_2d : Bool → ℕ → Store h → Cpu h → Option (Cpu h × Store h)
  unfolding auto_dim_2d put_array read_checked
  array_get_2d is_string slot s c₀ = do
    let column = vm_pop_number c₀
    let line = vm_pop_number column.1
    let row = h.to_size line.0
    let col = h.to_size column.0
    old ← get_elem? s.arrays slot
    let a = auto_dim_2d is_string old
    s' ← put_array slot a s
    c' ←
        read_checked (ltb row a.dim1 && ltb col a.dim2) is_string a ((row * a.dim2 + col) % 2 ^ 64)
          line.1
    some (c', s')

  unfoldable pub array_set_2d : Bool → ℕ → Store h → Cpu h → Option (Cpu h × Store h)
  unfolding auto_dim_2d put_array write_checked pop_value
  array_set_2d is_string slot s c₀ = do
    let value = pop_value is_string c₀
    let column = vm_pop_number value.1
    let line = vm_pop_number column.1
    let row = h.to_size line.0
    let col = h.to_size column.0
    old ← get_elem? s.arrays slot
    let a = auto_dim_2d is_string old
    s' ← put_array slot a s
    write_checked (ltb row a.dim1 && ltb col a.dim2) a ((row * a.dim2 + col) % 2 ^ 64) value.0 slot
        s' line.1

  unfoldable pub op_dim_1d : ℕ → Store h → Cpu h → Option (Cpu h × Store h)
  unfolding dimension put_array
  op_dim_1d slot s c₀ = do
    let popped = vm_pop_number c₀
    let size = extent (h.to_size popped.0)
    old ← get_elem? s.arrays slot
    s' ← put_array slot (dimension var_array_1d old.is_string size 0 size) s
    some (next popped.1, s')

  unfoldable pub op_dim_2d : ℕ → Store h → Cpu h → Option (Cpu h × Store h)
  unfolding dimension put_array
  op_dim_2d slot s c₀ = do
    let column = vm_pop_number c₀
    let line = vm_pop_number column.1
    let rows = extent (h.to_size line.0)
    let cols = extent (h.to_size column.0)
    old ← get_elem? s.arrays slot
    s' ← put_array slot (dimension var_array_2d old.is_string rows cols (rows * cols % 2 ^ 64)) s
    some (next line.1, s')

  unfoldable pub op_array_get_1d : ℕ → Store h → Cpu h → Option (Cpu h × Store h)
  unfolding array_get_1d
  op_array_get_1d = array_get_1d false

  unfoldable pub op_array_set_1d : ℕ → Store h → Cpu h → Option (Cpu h × Store h)
  unfolding array_set_1d
  op_array_set_1d = array_set_1d false

  unfoldable pub op_array_get_2d : ℕ → Store h → Cpu h → Option (Cpu h × Store h)
  unfolding array_get_2d
  op_array_get_2d = array_get_2d false

  unfoldable pub op_array_set_2d : ℕ → Store h → Cpu h → Option (Cpu h × Store h)
  unfolding array_set_2d
  op_array_set_2d = array_set_2d false

  unfoldable pub op_str_array_get_1d : ℕ → Store h → Cpu h → Option (Cpu h × Store h)
  unfolding array_get_1d
  op_str_array_get_1d = array_get_1d true

  unfoldable pub op_str_array_set_1d : ℕ → Store h → Cpu h → Option (Cpu h × Store h)
  unfolding array_set_1d
  op_str_array_set_1d = array_set_1d true

  unfoldable pub op_str_array_get_2d : ℕ → Store h → Cpu h → Option (Cpu h × Store h)
  unfolding array_get_2d
  op_str_array_get_2d = array_get_2d true

  unfoldable pub op_str_array_set_2d : ℕ → Store h → Cpu h → Option (Cpu h × Store h)
  unfolding array_set_2d
  op_str_array_set_2d = array_set_2d true

  -- OP_CLR frees every array; the kind of an array stays.
  unfoldable pub clear_array : ArrayData h → ArrayData h
  clear_array a = record a { u = null; dim1 = 0; dim2 = 0 }

  unfoldable pub clear_arrays : List (ArrayData h) → List (ArrayData h)
  unfolding clear_array
  clear_arrays [] = []
  clear_arrays (a ∷ xs) = clear_array a ∷ clear_arrays xs

-- Every string becomes null.
unfoldable pub clear_strings : List (Option Str) → List (Option Str)
clear_strings [] = []
clear_strings (_ ∷ xs) = none ∷ clear_strings xs

module _ {h : Host} where
  unfoldable pub op_clr : Store h → Cpu h → Cpu h × Store h
  unfolding clear_numbers clear_strings clear_arrays
  op_clr s c = (
    next c,
    record {
      num_vars = clear_numbers h s.num_vars;
      str_vars = clear_strings s.str_vars;
      arrays = clear_arrays s.arrays;
    },
  )
