-- ===== src/Mp4/Reach.antt =====
-- The places of a buffer that the parser of mp4_parse.rs walks, and outcomes without a panic or an
-- endless loop.
use nozdormu.Prelude.{
  ℕ, ◌+◌, ◌%◌, ◌≤◌, ◌≡◌, refl, Bool, true, false, some, [], ◌∷◌, ltb, if◌then◌else◌, length, arith,
  any,
}
use nozdormu.Prelude.Text.{codes, text_eq}
use nozdormu.Mp4.{
  Bytes, u64_mod, Mp4Error, truncated, Outcome, ok, fails, panics, diverges, ◌>>=◌, read_bytes,
  read_u16, read_u32, read_u64, read_fourcc,
}
use nozdormu.Mp4.Atoms.{AtomIter, Atom, new, sizes, make_atom, read_atom, next}

-- A value of the kind, or an error: no panic, and an end
pub data Returns {A : Type 0} (P : A → Type 0) : Outcome A → Type 0 where
  returned : {a : A} → P a → Returns P (ok a)
  failed : {e : Mp4Error} → Returns P (fails e)

abbrev pub Anything : {A : Type 0} → A → Type 0
Anything a = Unit

module _ {A : Type 0} (P : A → Type 0) where
  pub Returns-value : {a : A} → Returns P (ok a) → P a
  Returns-value (Returns.returned h) = h

  pub Returns-if :
      (c : Bool) (m n : Outcome A)
      → (c ≡ true → Returns P m)
      → (c ≡ false → Returns P n)
      → Returns P (if c then m else n)
  Returns-if true m n h k = h refl
  Returns-if false m n h k = k refl

  pub >>=-Returns :
      {B : Type 0} (Q : B → Type 0) (m : Outcome A) (f : A → Outcome B)
      → Returns P m
      → ((a : A) → m ≡ ok a → P a → Returns Q (f a))
      → Returns Q (m >>= f)
  >>=-Returns Q (ok a) f h k = k a refl (Returns-value h)
  >>=-Returns Q (fails e) f h k = Returns.failed
  >>=-Returns Q panics f h k = elim h [ ]
  >>=-Returns Q diverges f h k = elim h [ ]

-- The rule for a step whose value does not matter
pub >>=-Ends :
    {A B : Type 0} (Q : B → Type 0) (m : Outcome A) (f : A → Outcome B)
    → Returns Anything m
    → ((a : A) → Returns Q (f a))
    → Returns Q (m >>= f)
>>=-Ends Q m f h k = >>=-Returns Anything Q m f h (λ a e t. k a)

pub ruleset returns_rules = (Returns.returned, Returns.failed, Returns-if, >>=-Ends)

read_bytes-Returns :
    (width : ℕ) (buffer : Bytes) (offset : ℕ) → Returns Anything (read_bytes width buffer offset)
unfolding read_bytes
read_bytes-Returns width buffer offset = search returns_rules

pub read_u16-Returns : (buffer : Bytes) (offset : ℕ) → Returns Anything (read_u16 buffer offset)
unfolding read_u16
read_u16-Returns buffer offset = search (returns_rules, read_bytes-Returns)

pub read_u32-Returns : (buffer : Bytes) (offset : ℕ) → Returns Anything (read_u32 buffer offset)
unfolding read_u32
read_u32-Returns buffer offset = search (returns_rules, read_bytes-Returns)

pub read_u64-Returns : (buffer : Bytes) (offset : ℕ) → Returns Anything (read_u64 buffer offset)
unfolding read_u64
read_u64-Returns buffer offset = search (returns_rules, read_bytes-Returns)

pub read_fourcc-Returns :
    (buffer : Bytes) (offset : ℕ) → Returns Anything (read_fourcc buffer offset)
unfolding read_fourcc
read_fourcc-Returns buffer offset = read_bytes-Returns 4 buffer offset

pub ruleset reads_rules =
    (returns_rules, read_u16-Returns, read_u32-Returns, read_u64-Returns, read_fourcc-Returns)

-- What an atom that was read is, next to the iterator that read it
abbrev pub IsStep : AtomIter → Atom × AtomIter → Type 0
IsStep it r =
    (it.offset + 8 ≤ r.0.data_start)
    × (r.0.data_end ≤ it.end)
    × (r.1.offset ≡ r.0.data_end)
    × (r.1.end ≡ it.end)

sizes-Returns :
    (buffer : Bytes) (it : AtomIter) (size : ℕ)
    → Returns (λ (r : ℕ × ℕ). 8 ≤ r.0) (sizes buffer it size)
unfolding sizes
sizes-Returns buffer it size = search (reads_rules, arith) depth 8

make_atom-Returns :
    (it : AtomIter) (fourcc : Bytes) (header_size atom_size : ℕ)
    → 8 ≤ header_size
    → Returns (IsStep it) (make_atom it fourcc header_size atom_size)
unfolding make_atom
make_atom-Returns it fourcc header_size atom_size h =
    Returns-if (IsStep it) (ltb it.end ((it.offset + atom_size) % u64_mod)) _ _
      (λ t. Returns.failed {e = truncated it.offset}) (λ f. step f)
  where
    atom_end : ℕ
    atom_end = (it.offset + atom_size) % u64_mod

    step :
        ltb it.end atom_end ≡ false
        → Returns (IsStep it) (
            ok (
              record {
                fourcc = fourcc;
                header_size = header_size;
                data_start = it.offset + header_size;
                data_end = atom_end;
              },
              record it { offset = atom_end },
            ))
    step f = Returns.returned (omega arith, ground arith, refl, refl)

pub read_atom-Returns : (buffer : Bytes) (it : AtomIter) → Returns (IsStep it) (read_atom buffer it)
unfolding read_atom
read_atom-Returns buffer it = >>=-Ends _ _ _ (read_u32-Returns buffer it.offset) (λ size.
    >>=-Ends _ _ _ (read_fourcc-Returns buffer (it.offset + 4)) (λ fourcc.
      >>=-Returns _ _ _ _ (sizes-Returns buffer it size)
        (λ r e h. make_atom-Returns it fourcc r.0 r.1 h)))

-- The boxes that are opened
unfoldable pub is_container : Bytes → Bool
is_container kind =
    any (text_eq kind)
      (codes "moov" ∷ codes "trak" ∷ codes "mdia" ∷ codes "minf" ∷ codes "stbl" ∷ [])

-- The iterators over the whole buffer, and over the containers that they come to
pub data Reaches (buffer : Bytes) : AtomIter → Type 0 where
  whole : Reaches buffer (new buffer 0 (length buffer))
  later :
      {it : AtomIter} {r : Atom × AtomIter}
      → Reaches buffer it
      → next buffer it ≡ some (ok r)
      → Reaches buffer r.1
  inside :
      {it : AtomIter} {r : Atom × AtomIter}
      → Reaches buffer it
      → next buffer it ≡ some (ok r)
      → is_container r.0.fourcc ≡ true
      → Reaches buffer (new buffer r.0.data_start r.0.data_end)

-- Every atom that is reached is at least as long as its header.
abbrev pub HasRoom : Bytes → Type 0
HasRoom buffer =
    (it : AtomIter) (r : Atom × AtomIter)
    → Reaches buffer it
    → next buffer it ≡ some (ok r)
    → r.0.data_start ≤ r.0.data_end

-- An atom whose body lies in the buffer, and is walked if it is a container
abbrev pub IsOpen : Bytes → Bytes → Atom → Type 0
IsOpen buffer kind atom =
    (atom.data_start ≤ atom.data_end)
    × (atom.data_end ≤ length buffer)
    × (is_container kind ≡ true → Reaches buffer (new buffer atom.data_start atom.data_end))
