-- ===== src/Mp4/Atoms.antt =====
-- Atoms: `AtomIter` and `find_atom` of mp4_parse.rs.
use nozdormu.Prelude.{
  ℕ, zero, suc, ◌+◌, ◌-◌, ◌%◌, min, true, false, Option, none, some, ltb, ◌==◌, if◌then◌else◌,
  length,
}
use nozdormu.Prelude.Text.{text_eq}
use nozdormu.Mp4.{
  Bytes, u64_mod, truncated, Outcome, ok, fails, diverges, ◌>>=◌, read_u32, read_u64, read_fourcc,
}

pub record AtomIter : Type 0 where
  pub offset : ℕ
  pub end : ℕ

pub record Atom : Type 0 where
  pub fourcc : Bytes
  pub header_size : ℕ
  pub data_start : ℕ
  pub data_end : ℕ

unfoldable pub new : Bytes → ℕ → ℕ → AtomIter
new buffer start end = record { offset = start; end = min end (length buffer) }

-- The header's and the atom's size, from the 32-bit size field
unfoldable pub sizes : Bytes → AtomIter → ℕ → Outcome (ℕ × ℕ)
unfolding read_u64
sizes buffer it size =
    if size == 1
    then if ltb it.end (it.offset + 16)
      then fails (truncated it.offset)
      else (read_u64 buffer (it.offset + 8) >>= λ ext. ok (16, ext))
    else if size == 0
    then ok (8, it.end - it.offset)
    else ok (8, size)

-- `usize` addition wraps in a release build.
unfoldable pub make_atom : AtomIter → Bytes → ℕ → ℕ → Outcome (Atom × AtomIter)
make_atom it fourcc header_size atom_size =
    let atom_end = (it.offset + atom_size) % u64_mod in
    if ltb it.end atom_end
    then fails (truncated it.offset)
    else ok (
      record {
        fourcc = fourcc;
        header_size = header_size;
        data_start = it.offset + header_size;
        data_end = atom_end;
      },
      record it { offset = atom_end },
    )

-- The atom at the offset, and the iterator after it
unfoldable pub read_atom : Bytes → AtomIter → Outcome (Atom × AtomIter)
unfolding sizes make_atom read_u32 read_fourcc
read_atom buffer it = do
  size ← read_u32 buffer it.offset
  fourcc ← read_fourcc buffer (it.offset + 4)
  (header_size, atom_size) ← sizes buffer it size
  make_atom it fourcc header_size atom_size

-- After an error the iterator stays where it is; its callers return the error.
unfoldable pub next : Bytes → AtomIter → Option (Outcome (Atom × AtomIter))
unfolding read_atom
next buffer it = if ltb it.end (it.offset + 8) then none else some (read_atom buffer it)

-- The loop of `find_atom`, with a bound on its rounds
unfoldable pub find_from : ℕ → Bytes → AtomIter → Bytes → Outcome (Option Atom)
unfolding next
find_from zero buffer it target = diverges
find_from (suc fuel) buffer it target = elim (next buffer it) [
  | none ↦ ok none
  | some item ↦ item >>= λ r. elim (text_eq r.0.fourcc target) [
    | true ↦ ok (some r.0)
    | false ↦ find_from fuel buffer r.1 target
  ]
]

-- An offset is at most the length, so a loop of more rounds than this repeats one and never ends.
unfoldable pub rounds : Bytes → ℕ
rounds buffer = suc (length buffer)

unfoldable pub find_atom : Bytes → ℕ → ℕ → Bytes → Outcome (Option Atom)
unfolding new find_from rounds
find_atom buffer start end target = find_from (rounds buffer) buffer (new buffer start end) target
