-- ===== src/Compiler/Tree.antt =====
-- src/parser.h: the parse tree, as the compiler reads it. `null` is a null pointer. A read through it,
-- or of a child that is not there, is undefined.
use basset_lang.Prelude.{ℕ, zero, suc, ℤ, Bool, true, false, ◌&&◌, ◌==◌, Option, none, some}
use basset_lang.Host.{Host, Str}

pub data NodeType : Type 0 where
  statement expression variable constant operator function_call assignment : NodeType

mutual
  pub data ParseNode (h : Host) : Type 0 where
    null : ParseNode h
    node : NodeType → ℕ → Option Str → h.Double → ℤ → Children h → ParseNode h

  pub data Children (h : Host) : Type 0 where
    nil : Children h
    cons : ParseNode h → Children h → Children h

abbrev pub same_type : NodeType → NodeType → Bool
same_type statement statement = true
same_type expression expression = true
same_type variable variable = true
same_type constant constant = true
same_type operator operator = true
same_type function_call function_call = true
same_type assignment assignment = true
same_type _ _ = false

module _ {h : Host} where
  -- `child_count`, and `children[i]`.
  unfoldable pub count : Children h → ℕ
  count nil = 0
  count (cons _ kids) = suc (count kids)

  unfoldable pub child : Children h → ℕ → Option (ParseNode h)
  child nil i = none
  child (cons c kids) zero = some c
  child (cons c kids) (suc i) = child kids i

  -- The fields of a node.
  unfoldable pub type_of : ParseNode h → Option NodeType
  type_of null = none
  type_of (node type token text value line kids) = some type

  unfoldable pub token_of : ParseNode h → Option ℕ
  token_of null = none
  token_of (node type token text value line kids) = some token

  unfoldable pub text_of_node : ParseNode h → Option (Option Str)
  text_of_node null = none
  text_of_node (node type token text value line kids) = some text

  unfoldable pub value_of : ParseNode h → Option h.Double
  value_of null = none
  value_of (node type token text value line kids) = some value

  unfoldable pub kids_of : ParseNode h → Option (Children h)
  kids_of null = none
  kids_of (node type token text value line kids) = some kids

  -- `n && n->type == type`, and the same with a token.
  unfoldable pub is_type : NodeType → ParseNode h → Bool
  is_type wanted null = false
  is_type wanted (node type token text value line kids) = same_type wanted type

  unfoldable pub is_node : NodeType → ℕ → ParseNode h → Bool
  is_node wanted byte null = false
  is_node wanted byte (node type token text value line kids) =
      same_type wanted type && token == byte

  -- `n ? n->child_count : 0`
  unfoldable pub count_of : ParseNode h → ℕ
  unfolding count
  count_of null = 0
  count_of (node type token text value line kids) = count kids

  -- The text of a node that may be null.
  unfoldable pub name_of : ParseNode h → Option Str
  name_of null = none
  name_of (node type token text value line kids) = text

  -- `while (n && n->type == NODE_EXPRESSION && n->child_count > 0) n = n->children[0];`
  unfoldable pub unwrap : ParseNode h → ParseNode h
  unwrap (node expression token text value line (cons c kids)) = unwrap c
  unwrap n = n

  -- `if (i < n->child_count) n->children[i] else NULL`
  unfoldable pub child_or_null : Children h → ℕ → ParseNode h
  unfolding child
  child_or_null kids i = elim (child kids i) [ none ↦ null | some c ↦ c ]

  -- The children of a node that may be null.
  unfoldable pub kids_or_nil : ParseNode h → Children h
  kids_or_nil null = nil
  kids_or_nil (node type token text value line kids) = kids
