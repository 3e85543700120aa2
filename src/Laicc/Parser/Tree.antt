-- ===== src/Laicc/Parser/Tree.antt =====
-- What pest hands to crates/laicc/src/parser.rs: a tree of pairs, each with the rule it was parsed
-- by, its text, and the pairs inside it. The rules are those of crates/laicc/src/laic.pest.
use laic.Prelude.{String}

pub data Rule : Type 0 where
  whitespace comment file eoi version_decl skill_def id_decl input_def output_def : Rule
  field_def default_value laic_type map_type list_type optional_type tensor_type tensor_dtype : Rule
  dim_list dimension error_def error_variant ident literal string_literal float_literal : Rule
  integer_literal bool_literal integer : Rule

-- `{:?}`
abbrev pub debug_rule : Rule → String
debug_rule whitespace = "WHITESPACE"
debug_rule comment = "COMMENT"
debug_rule file = "file"
debug_rule eoi = "EOI"
debug_rule version_decl = "version_decl"
debug_rule skill_def = "skill_def"
debug_rule id_decl = "id_decl"
debug_rule input_def = "input_def"
debug_rule output_def = "output_def"
debug_rule field_def = "field_def"
debug_rule default_value = "default_value"
debug_rule laic_type = "laic_type"
debug_rule map_type = "map_type"
debug_rule list_type = "list_type"
debug_rule optional_type = "optional_type"
debug_rule tensor_type = "tensor_type"
debug_rule tensor_dtype = "tensor_dtype"
debug_rule dim_list = "dim_list"
debug_rule dimension = "dimension"
debug_rule error_def = "error_def"
debug_rule error_variant = "error_variant"
debug_rule ident = "ident"
debug_rule literal = "literal"
debug_rule string_literal = "string_literal"
debug_rule float_literal = "float_literal"
debug_rule integer_literal = "integer_literal"
debug_rule bool_literal = "bool_literal"
debug_rule integer = "integer"

mutual
  pub data Pair : Type 0 where
    pair : (rule : Rule) (as_str : String) (inner : Pairs) → Pair

  pub data Pairs : Type 0 where
    nil : Pairs
    next : Pair → Pairs → Pairs

abbrev pub as_rule : Pair → Rule
as_rule (pair r s ps) = r

abbrev pub as_str : Pair → String
as_str (pair r s ps) = s

abbrev pub into_inner : Pair → Pairs
into_inner (pair r s ps) = ps
