-- ===== src/Compiler/Meaning.antt =====
-- What an expression over numbers means, independently of the compiler and of the machine's stack.
use basset_lang.Prelude.{
  ℕ, ◌^◌, ℤ, ◌<◌, ◌≡◌, not, ◌&&◌, ◌||◌, ◌==◌, pos, Bool, true, false, Option, none, some, List, [],
  ◌∷◌, get_elem?, if◌then◌else◌,
}
use basset_lang.Host.{Host, Str}
use basset_lang.Tokens
use basset_lang.Vm.State.{Vm}
use basset_lang.Vm.Stack.{num}
use basset_lang.Vm.Arith.{truth}
use basset_lang.Vm.Execute.{has_dollar}
use basset_lang.Compiler.{find_variable}
use basset_lang.Compiler.Tree.{
  expression, variable, constant, operator, function_call, ParseNode, null, node, Children, nil,
  cons,
}

unfoldable pub lookup {ℓ} : {A : Type ℓ} → List (ℕ × A) → ℕ → Option A
lookup [] token = none
lookup ((t, a) ∷ table) token = if token == t then some a else lookup table token

-- An operation of two numbers; none where it stops with an error.
abbrev pub Binary : Host → Type 0
Binary h = h.Double → h.Double → Option h.Double

abbrev pub total : (h : Host) → (h.Double → h.Double → h.Double) → Binary h
total h f x y = some (f x y)

abbrev pub logical : (h : Host) → (h.Double → h.Double → Bool) → Binary h
logical h f x y = some (truth h (f x y))

abbrev pub divided : (h : Host) → Binary h
divided h x y = if h.eq y (num h 0) then none else some (h.div x y)

abbrev pub is_true : (h : Host) → h.Double → Bool
is_true h x = not (h.eq x (num h 0))

abbrev pub binary_values : (h : Host) → List (ℕ × Binary h)
binary_values h =
    (Tokens.tok_cplus, total h h.add)
    ∷ (Tokens.tok_cminus, total h h.sub)
    ∷ (Tokens.tok_cmul, total h h.mul)
    ∷ (Tokens.tok_cdiv, divided h)
    ∷ (Tokens.tok_cexp, total h h.pow)
    ∷ (Tokens.tok_ceq, logical h h.eq)
    ∷ (Tokens.tok_cne, logical h (λ x y. not (h.eq x y)))
    ∷ (Tokens.tok_clt, logical h h.lt)
    ∷ (Tokens.tok_cle, logical h h.le)
    ∷ (Tokens.tok_cgt, logical h (λ x y. h.lt y x))
    ∷ (Tokens.tok_cge, logical h (λ x y. h.le y x))
    ∷ (Tokens.tok_cand, logical h (λ x y. is_true h x && is_true h y))
    ∷ (Tokens.tok_cor, logical h (λ x y. is_true h x || is_true h y))
    ∷ []

abbrev pub unary_values : (h : Host) → List (ℕ × (h.Double → h.Double))
unary_values h =
    (Tokens.tok_cminus, h.neg)
    ∷ (Tokens.tok_cuminus, h.neg)
    ∷ (Tokens.tok_cnot, λ x. truth h (h.eq x (num h 0)))
    ∷ []

abbrev pub function_values : (h : Host) → List (ℕ × (h.Double → h.Double))
function_values h =
    (Tokens.tok_cexp_f, h.exp) ∷ (Tokens.tok_cabs, h.fabs) ∷ (Tokens.tok_cint, h.floor) ∷ []

module _ {h : Host} where
  -- A constant of the pool that `==` finds equal to the number is the number. This leaves out a number
  -- that is zero with the other sign than a zero of the pool.
  abbrev pub IsExact : Vm h → h.Double → Type 0
  IsExact vm v =
      (i : ℕ) (x : h.Double) → get_elem? vm.program.const_pool i ≡ some x → h.eq x v ≡ true → x ≡ v

-- The number that an expression is, with the variables of the machine.
pub data Evaluates {h : Host} (vm : Vm h) : ParseNode h → h.Double → Type 0 where
  of_null : IsExact vm (num h 0) → Evaluates vm null (num h 0)
  of_constant :
      {token : ℕ} {text : Option Str} {value : h.Double} {line : ℤ} {kids : Children h}
      → (token == Tokens.tok_string) ≡ false
      → IsExact vm value
      → Evaluates vm (node constant token text value line kids) value
  of_variable :
      {token : ℕ} {name : Str} {value : h.Double} {line : ℤ} {slot : ℕ} {x : h.Double}
      → has_dollar name ≡ false
      → find_variable vm.program.var_table name ≡ pos slot
      → slot < 2 ^ 16
      → get_elem? vm.store.num_vars slot ≡ some x
      → Evaluates vm (node variable token (some name) value line nil) x
  of_wrapper :
      {token : ℕ} {text : Option Str} {value : h.Double} {line : ℤ} {n : ParseNode h} {x : h.Double}
      → Evaluates vm n x
      → Evaluates vm (node expression token text value line (cons n nil)) x
  of_binary :
      {token : ℕ} {text : Option Str} {value : h.Double} {line : ℤ} {a b : ParseNode h}
      → {x y z : h.Double} {f : Binary h} → lookup (binary_values h) token ≡ some f
      → Evaluates vm a x
      → Evaluates vm b y
      → f x y ≡ some z
      → Evaluates vm (node operator token text value line (cons a (cons b nil))) z
  of_unary :
      {token : ℕ} {text : Option Str} {value : h.Double} {line : ℤ} {a : ParseNode h}
      → {x : h.Double} {f : h.Double → h.Double} → lookup (unary_values h) token ≡ some f
      → Evaluates vm a x
      → Evaluates vm (node operator token text value line (cons a nil)) (f x)
  of_function :
      {token : ℕ} {text : Option Str} {value : h.Double} {line : ℤ} {a : ParseNode h}
      → {x : h.Double} {f : h.Double → h.Double} → lookup (function_values h) token ≡ some f
      → Evaluates vm a x
      → Evaluates vm (node function_call token text value line (cons a nil)) (f x)
