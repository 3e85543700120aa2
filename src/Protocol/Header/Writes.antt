-- ===== src/Protocol/Header/Writes.antt =====
-- Consecutive writes of fields into a buffer, as `encode` of header.rs makes them.
use laic.Prelude.{ℕ, ◌+◌, ◌≡◌, refl, List, [], ◌∷◌, ◌++◌, append_assoc}
use laic.Prelude.{length, length-append, take-append, drop-append, drop, drop-drop}
use laic.Prelude.{write_at}
use mathlib.Core.List.{flatten}

module _ {ℓ} {A : Type ℓ} where
  -- One field behind the other, the first at `off`.
  abbrev pub write_all : ℕ → List (List A) → List A → List A
  write_all off [] buf = buf
  write_all off (bs ∷ rest) buf = write_all (off + length bs) rest (write_at off bs buf)

  write_at-append :
      (bs pre rem : List A)
      → write_at (length pre) bs (pre ++ rem) ≡ (pre ++ bs) ++ drop (length bs) rem
  write_at-append bs pre rem =
      rw (
        take-append pre rem,
        ← drop-drop (length pre) (length bs) (pre ++ rem),
        drop-append pre rem,
      )

module _ {ℓ} {A : Type ℓ} where
  -- The fields replace as many bytes as they have, and the rest of the buffer stays.
  pub write_all-append :
      (fields : List (List A)) (pre rem : List A)
      → write_all (length pre) fields (pre ++ rem)
        ≡ pre ++ (flatten fields ++ drop (length (flatten fields)) rem)
  unfolding flatten
  write_all-append [] pre rem = refl
  write_all-append (bs ∷ fields) pre rem =
      rw
        (
          write_at-append bs pre rem,
          ← length-append pre bs,
          write_all-append fields (pre ++ bs) (drop (length bs) rem),
        )
        (simp (length-append, ← drop-drop, append_assoc))
