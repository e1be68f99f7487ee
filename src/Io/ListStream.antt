-- ===== src/Io/ListStream.antt =====
-- A list of bytes as a stream: read from the front, written at the back.
use meta_text.Prelude.{
  ℕ, refl, List, [], ◌∷◌, ◌++◌, Option, none, some, ok, err, Exec, length, take, drop, ltb,
  if◌then◌else◌, arith,
}
use meta_text.Io.{IoError, unexpected_eof, ByteReader, ByteWriter, HealthyReader, HealthyWriter}

abbrev pub one_of : Exec IoError (List ℕ) (Option ℕ)
one_of [] = (ok none, [])
one_of (b ∷ bs) = (ok (some b), bs)

abbrev pub exactly : ℕ → Exec IoError (List ℕ) (List ℕ)
exactly n bs = if ltb (length bs) n then (err unexpected_eof, []) else (ok (take n bs), drop n bs)

abbrev pub list_reader : ByteReader
list_reader = record {
  Reader = List ℕ;
  contents = λ bs. bs;
  read_one = one_of;
  read_exact = exactly;
}

abbrev pub list_writer : ByteWriter
list_writer = record {
  Writer = List ℕ;
  written = λ bs. bs;
  write_all = λ bs w. (ok tt, w ++ bs);
  flush = λ w. (ok tt, w);
}

pub list_reader_healthy : HealthyReader list_reader
list_reader_healthy = record {
  read_one_end = λ r e. ground arith;
  read_one_byte = λ r b bs e. ground arith;
  read_exact_full = λ n r h. ground arith;
  read_exact_short = λ n r h. ground arith;
}

pub list_writer_healthy : HealthyWriter list_writer
list_writer_healthy = record {
  write_all_done = λ bs w. (refl, refl);
  flush_done = λ w. (refl, refl);
}
