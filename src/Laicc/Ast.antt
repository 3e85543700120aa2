-- ===== src/Laicc/Ast.antt =====
-- crates/laicc/src/ast.rs and error.rs: a parsed `.laic` file, and the compiler's errors.
use laic.Prelude.{ℕ, String, Option, List, Bool, true, false, ltb}
use laic.Prelude.Detail.{Detail}

-- The integers, for `i64`.
pub data ℤ : Type 0 where
  pos : ℕ → ℤ
  negsuc : ℕ → ℤ

-- `<`
abbrev pub ltℤ : ℤ → ℤ → Bool
ltℤ (pos m) (pos n) = ltb m n
ltℤ (pos m) (negsuc n) = false
ltℤ (negsuc m) (pos n) = true
ltℤ (negsuc m) (negsuc n) = ltb n m

pub data TensorElementType : Type 0 where
  f32 f64 i8 i16 i32 i64 u8 bool : TensorElementType

unfoldable pub as_str : TensorElementType → String
as_str f32 = "f32"
as_str f64 = "f64"
as_str i8 = "i8"
as_str i16 = "i16"
as_str i32 = "i32"
as_str i64 = "i64"
as_str u8 = "u8"
as_str bool = "bool"

pub data Dimension : Type 0 where
  fixed : ℕ → Dimension
  dynamic : Option String → Dimension

pub data LaicType : Type 0 where
  string bytes bool_ty i8_ty i16_ty i32_ty i64_ty u8_ty f32_ty f64_ty : LaicType
  tensor : (dtype : TensorElementType) (dims : List Dimension) → LaicType
  list : LaicType → LaicType
  optional : LaicType → LaicType
  map_ty : LaicType → LaicType → LaicType

-- A float is given by its bits.
pub data Literal : Type 0 where
  string_lit : String → Literal
  integer : ℤ → Literal
  float : ℕ → Literal
  bool_lit : Bool → Literal

pub record FieldDef : Type 0 where
  pub name : String
  pub ty : LaicType
  pub default : Option Literal

pub record StructDef : Type 0 where
  pub name : String
  pub fields : List FieldDef

pub record ErrorVariant : Type 0 where
  pub name : String
  pub code : ℕ

pub record SkillDef : Type 0 where
  pub name : String
  pub id : String
  pub input : StructDef
  pub output : StructDef
  pub errors : List ErrorVariant

pub record LaicFile : Type 0 where
  pub version : String
  pub skills : List SkillDef

pub data CompileError : Type 0 where
  parse : Detail → CompileError
  validation : Detail → CompileError
  codegen : Detail → CompileError
  io : Detail → CompileError
