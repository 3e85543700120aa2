-- ===== src/Transport/Framing/Stream.antt =====
-- What framing.rs uses of tokio: `AsyncWriteExt::write_all` and `AsyncReadExt::read_exact`, with
-- the documented behaviour that the proofs rely on. An I/O error is its text.
use laic.Prelude.{
  ℕ, ◌≤◌, ◌<◌, ◌≡◌, refl, String, List, [], ◌++◌, ok, err, done, length, take, drop, leb,
  if◌then◌else◌, arith,
}
use laic.Prelude.Exec.{Exec}

pub record AsyncWrite : Type 1 where
  pub Writer : Type 0
  pub write_all : List ℕ → Exec Writer String (Unit {0})

pub record AsyncRead : Type 1 where
  pub Reader : Type 0
  pub read_exact : ℕ → Exec Reader String (List ℕ)

-- A successful `write_all` writes the whole buffer.
pub record WriteLaws (w : AsyncWrite) : Type 1 where
  pub sent : w.Writer → List ℕ
  pub write_ok :
      (bs : List ℕ) (s : w.Writer)
      → (w.write_all bs s).0 ≡ done
      → sent (w.write_all bs s).1 ≡ sent s ++ bs

-- `read_exact` fills its buffer with the next bytes, and fails if the stream ends before. `queued`
-- is what the stream still delivers before its end.
pub record ReadLaws (r : AsyncRead) : Type 1 where
  pub queued : r.Reader → List ℕ
  pub read_enough :
      (n : ℕ) (s : r.Reader)
      → n ≤ length (queued s)
      → ((r.read_exact n s).0 ≡ ok (take n (queued s)))
        × (queued (r.read_exact n s).1 ≡ drop n (queued s))
  pub read_short :
      (n : ℕ) (s : r.Reader) → length (queued s) < n → (e : String) × ((r.read_exact n s).0 ≡ err e)

-- A buffer in memory on each side, as `tokio::io::duplex` gives in the tests.
abbrev pub buffer_write : AsyncWrite
buffer_write = record { Writer = List ℕ; write_all = λ bs s. (done, s ++ bs) }

abbrev pub buffer_write_laws : WriteLaws buffer_write
buffer_write_laws = record { sent = λ s. s; write_ok = λ bs s h. refl }

abbrev pub buffer_read_exact : ℕ → Exec (List ℕ) String (List ℕ)
buffer_read_exact n s =
    if leb n (length s) then (ok (take n s), drop n s) else (err "early eof", [])

abbrev pub buffer_read : AsyncRead
buffer_read = record { Reader = List ℕ; read_exact = buffer_read_exact }

pub buffer_read_enough :
    (n : ℕ) (s : List ℕ)
    → n ≤ length s
    → ((buffer_read_exact n s).0 ≡ ok (take n s)) × ((buffer_read_exact n s).1 ≡ drop n s)
buffer_read_enough n s h = ground arith

pub buffer_read_short :
    (n : ℕ) (s : List ℕ) → length s < n → (e : String) × ((buffer_read_exact n s).0 ≡ err e)
buffer_read_short n s h = ("early eof", ground arith)

abbrev pub buffer_read_laws : ReadLaws buffer_read
buffer_read_laws = record {
  queued = λ s. s;
  read_enough = buffer_read_enough;
  read_short = buffer_read_short;
}
