-- ===== src/Io.antt =====
-- Byte streams, as framing.rs and network.rs use them. The stream is tokio's: its operations are the
-- fields of `ByteReader` and `ByteWriter`, and the behaviour that tokio documents for them on a
-- stream without transport faults is `HealthyReader` and `HealthyWriter`.
pub mod ListStream
use meta_text.Prelude.{
  ℕ, ◌≤◌, ◌<◌, ◌≡◌, List, [], ◌∷◌, ◌++◌, Option, none, some, ok, err, Exec, length, take, drop,
}

-- `io::Error`: its kind, with what `invalid` puts in the message.
pub data IoError : Type 0 where
  unexpected_eof : IoError
  transport : ℕ → IoError
  empty_read : IoError
  oversized_read : ℕ → IoError
  empty_write : IoError
  oversized_write : ℕ → IoError
  malformed : IoError
  unserializable : IoError

pub record ByteReader : Type 1 where
  pub Reader : Type 0
  pub contents : Reader → List ℕ
  -- `read` into a buffer of one byte; `none` is a read of 0 bytes
  pub read_one : Exec IoError Reader (Option ℕ)
  pub read_exact : ℕ → Exec IoError Reader (List ℕ)

pub record ByteWriter : Type 1 where
  pub Writer : Type 0
  pub written : Writer → List ℕ
  pub write_all : List ℕ → Exec IoError Writer (Unit {0})
  pub flush : Exec IoError Writer (Unit {0})

-- What tokio's `AsyncReadExt` documents: bytes come in order, 0 bytes mean the end of the stream,
-- and `read_exact` fails with `UnexpectedEof` where the stream ends first.
pub record HealthyReader (io : ByteReader) : Type 0 where
  pub read_one_end : (r : io.Reader) → io.contents r ≡ [] → (io.read_one r).0 ≡ ok none
  pub read_one_byte :
      (r : io.Reader) (b : ℕ) (bs : List ℕ)
      → io.contents r ≡ b ∷ bs
      → ((io.read_one r).0 ≡ ok (some b)) × (io.contents (io.read_one r).1 ≡ bs)
  pub read_exact_full :
      (n : ℕ) (r : io.Reader)
      → n ≤ length (io.contents r)
      → ((io.read_exact n r).0 ≡ ok (take n (io.contents r)))
        × (io.contents (io.read_exact n r).1 ≡ drop n (io.contents r))
  pub read_exact_short :
      (n : ℕ) (r : io.Reader)
      → length (io.contents r) < n
      → (io.read_exact n r).0 ≡ err unexpected_eof

-- What `AsyncWriteExt` documents: `write_all` appends every byte, and `flush` adds none.
pub record HealthyWriter (io : ByteWriter) : Type 0 where
  pub write_all_done :
      (bs : List ℕ) (w : io.Writer)
      → ((io.write_all bs w).0 ≡ ok tt) × (io.written (io.write_all bs w).1 ≡ io.written w ++ bs)
  pub flush_done :
      (w : io.Writer) → ((io.flush w).0 ≡ ok tt) × (io.written (io.flush w).1 ≡ io.written w)
