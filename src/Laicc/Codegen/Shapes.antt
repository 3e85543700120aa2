-- ===== src/Laicc/Codegen/Shapes.antt =====
-- The shape of a tensor in the metadata that the three languages and `inspect-schema` write.
use laic.Prelude.{◌≡◌, refl, ap, List, [], ◌∷◌, ◌++◌, map}
use laic.Prelude.Detail.{Detail, text}
use laic.Laicc.Ast.{Dimension, fixed, dynamic}
use laic.Laicc.Codegen.Emitted.{join_comma}
use laic.Laicc.Codegen.Rust.Schema
use laic.Laicc.Codegen.Python.Serialize
use laic.Laicc.Codegen.TypeScript.Types
use laic.Laicc.Driver.Inspect

map-ext {ℓ κ} :
    {A : Type ℓ} {B : Type κ} (f g : A → B)
    → ((x : A) → f x ≡ g x)
    → (xs : List A) → map f xs ≡ map g xs
map-ext f g same [] = refl
map-ext f g same (x ∷ xs) = rw (same x, map-ext f g same xs)

module _ (f g : Dimension → Detail) (same : (d : Dimension) → f d ≡ g d) where
  shape-ext :
      (dims : List Dimension)
      → ◌≡◌ {A = Detail}
          (text "[" ∷ join_comma (map f dims) ++ text "]" ∷ [])
          (text "[" ∷ join_comma (map g dims) ++ text "]" ∷ [])
  shape-ext dims =
      ap (λ (ds : List Detail). text "[" ∷ join_comma ds ++ text "]" ∷ []) (map-ext f g same dims)

-- Rust, Python and TypeScript write one and the same text for the shape of a tensor, and
-- `inspect-schema` prints it.
pub shapes_agree :
    (dims : List Dimension)
    → (Schema.format_dims_as_shape dims ≡ Serialize.format_dims_as_shape dims)
      × (Serialize.format_dims_as_shape dims ≡ Types.format_ts_dims dims)
      × (Types.format_ts_dims dims ≡ Inspect.format_tensor_shape_metadata dims)
unfolding Schema.format_dims_as_shape Serialize.format_dims_as_shape Types.format_ts_dims
    Inspect.format_tensor_shape_metadata
shapes_agree dims = (
  shape-ext Schema.dim_part Serialize.dim_part python dims,
  shape-ext Serialize.dim_part Types.dim_part typescript dims,
  shape-ext Types.dim_part Inspect.shape_dim inspect dims,
)
  where
    python : (d : Dimension) → Schema.dim_part d ≡ Serialize.dim_part d
    python (fixed n) = refl
    python (dynamic _) = refl

    typescript : (d : Dimension) → Serialize.dim_part d ≡ Types.dim_part d
    typescript (fixed n) = refl
    typescript (dynamic _) = refl

    inspect : (d : Dimension) → Types.dim_part d ≡ Inspect.shape_dim d
    inspect (fixed n) = refl
    inspect (dynamic _) = refl
