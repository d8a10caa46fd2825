-- ===== src/Mp4/Malformed.antt =====
-- Headers with a size below their own length (mp4_parse.rs): what the parser does with them.
use nozdormu.Prelude.{
  ℕ, zero, suc, ◌+◌, ◌%◌, ◌≤◌, ◌<◌, min, ◌≡◌, ◌≢◌, refl, sym, ap, ◌∙◌, Bool, true, false, some, [],
  ◌++◌, append_assoc, append-nil, replicate, ltb, leb, ◌==◌, length, arith, length-append,
}
use nozdormu.Prelude.Text.{codes, text_eq, text_eq_iff}
use nozdormu.Mp4.{Bytes, u32_mod, u64_mod, ok, panics, diverges, read_u64, slice}
use nozdormu.Mp4.Atoms.{
  AtomIter, Atom, new, sizes, make_atom, read_atom, next, find_from, rounds, find_atom,
}
use nozdormu.Mp4.Boxes.{Box, print_box, atom_at, next-at}
use nozdormu.Mp4.Layout.{print_u32, read_bytes-at, read_u32-at, read_fourcc-at}
use nozdormu.Mp4.Movie.{parse_mp4}
use nozdormu.Mp4.Tracks.{require_atom, parse_mdhd, parse_mvhd}

find_from-skip :
    (buffer : Bytes) (it : AtomIter) (target : Bytes) (fuel : ℕ) (r : Atom × AtomIter)
    → next buffer it ≡ some (ok r)
    → text_eq r.0.fourcc target ≡ false
    → find_from (suc fuel) buffer it target ≡ find_from fuel buffer r.1 target
unfolding find_from
find_from-skip buffer it target fuel r e n =
    rw (e, find_from)
      (ap
        (λ (found : Bool). elim found [
          | true ↦ ok (some r.0)
          | false ↦ find_from fuel buffer r.1 target
        ])
        n)

-- An atom with a 64-bit size of zero
abbrev pub zero_sized : Bytes → Bytes → Bytes
zero_sized kind rest = print_u32 1 ++ (kind ++ (replicate 8 0 ++ rest))

module _ (kind rest : Bytes) (four : length kind ≡ 4) where
  read_zero : read_u64 (zero_sized kind rest) 8 ≡ ok 0
  unfolding read_u64
  read_zero =
      let header = length-append (print_u32 1) kind in
      let at = read_bytes-at 8 8 (print_u32 1 ++ kind) (replicate 8 0) rest (omega arith) refl in
      let same : zero_sized kind rest ≡ (print_u32 1 ++ kind) ++ (replicate 8 0 ++ rest) =
        simp append_assoc in
      rw (same, at) refl

  -- The iterator stands still.
  next-zero_sized :
      (end : ℕ)
      → 16 ≤ end
      → next (zero_sized kind rest) (record { offset = 0; end = end })
        ≡ some (
            ok (
              record { fourcc = kind; header_size = 16; data_start = 16; data_end = 0 },
              record { offset = 0; end = end },
            ))
  unfolding next read_atom sizes make_atom
  next-zero_sized end h =
      let room : ltb end 8 ≡ false = ground arith in
      let wide : ltb end 16 ≡ false = ground arith in
      let size = read_u32-at 1 0 [] (kind ++ (replicate 8 0 ++ rest)) refl (omega arith) in
      let named = read_fourcc-at kind 4 (print_u32 1) (replicate 8 0 ++ rest) refl four in
      let zero_end : ltb end 0 ≡ false = ground arith in
      rw (room, size, named, wide, read_zero, zero_end) refl

  find_from-zero_sized :
      (target : Bytes) (end fuel : ℕ)
      → 16 ≤ end
      → kind ≢ target
      → find_from fuel (zero_sized kind rest) (record { offset = 0; end = end }) target ≡ diverges
  unfolding find_from
  find_from-zero_sized target end zero h n = refl
  find_from-zero_sized target end (suc fuel) h n =
      let other : text_eq kind target ≡ false = ground (arith, text_eq_iff kind target, n) in
      find_from-skip (zero_sized kind rest) (record { offset = 0; end = end }) target fuel _
        (next-zero_sized end h) other
      ∙ find_from-zero_sized target end fuel h n

  find_atom-zero_sized :
      (target : Bytes)
      → kind ≢ target
      → find_atom (zero_sized kind rest) 0 (length (zero_sized kind rest)) target ≡ diverges
  unfolding find_atom new rounds
  find_atom-zero_sized target n =
      let long = length-append kind (replicate 8 0 ++ rest) in
      find_from-zero_sized target
        (min (length (zero_sized kind rest)) (length (zero_sized kind rest)))
        (rounds (zero_sized kind rest)) (omega arith) n

  -- A file that starts with an atom other than `moov` with a 64-bit size of zero, whatever follows,
  -- keeps the parser in a loop that never ends.
  pub parse_mp4-zero_sized :
      (F : Type 0) (zero_secs : F) (divide : ℕ → ℕ → F)
      → kind ≢ codes "moov"
      → parse_mp4 F zero_secs divide (zero_sized kind rest) ≡ diverges
  unfolding parse_mp4
  parse_mp4-zero_sized F zero_secs divide n = rw (find_atom-zero_sized (codes "moov") n) refl

-- A movie whose header has a 32-bit size that is shorter than itself
abbrev pub short_header : ℕ → Bytes → Bytes
short_header size rest =
    print_box (record { kind = codes "moov"; body = print_u32 size ++ (codes "mvhd" ++ rest) })

-- The atom that has the short size ends before its body starts.
next-short :
    (size : ℕ) (rest : Bytes) (end : ℕ)
    → 2 ≤ size
    → size < 8
    → 16 ≤ end
    → next (short_header size rest) (record { offset = 8; end = end })
      ≡ some (
          ok (
            record { fourcc = codes "mvhd"; header_size = 8; data_start = 16; data_end = 8 + size },
            record { offset = 8 + size; end = end },
          ))
unfolding next read_atom sizes make_atom
next-short size rest end low high h =
    let room : ltb end 16 ≡ false = ground arith in
    let pre : Bytes =
      print_u32 (length (print_u32 size ++ (codes "mvhd" ++ rest)) + 8) ++ codes "moov" in
    let field = read_u32-at size 8 pre (codes "mvhd" ++ rest) refl (omega arith) in
    let named = read_fourcc-at (codes "mvhd") 12 (pre ++ print_u32 size) rest refl refl in
    let no_one : size == 1 ≡ false = ground arith in
    let no_zero : size == 0 ≡ false = ground arith in
    let same : (8 + size) % u64_mod ≡ 8 + size = omega arith in
    let inside : ltb end (8 + size) ≡ false = ground arith in
    rw (room, field, named, no_one, no_zero, same, inside) refl

module _ (size : ℕ) (rest : Bytes) (low : 2 ≤ size) (high : size < 8)
    (small : length rest + 24 < u32_mod) where
  moov_box : Box
  moov_box = record { kind = codes "moov"; body = print_u32 size ++ (codes "mvhd" ++ rest) }

  find_moov :
      find_atom (short_header size rest) 0 (length (short_header size rest)) (codes "moov")
      ≡ ok (some (atom_at 0 moov_box))
  unfolding find_atom new rounds find_from moov_box
  find_moov =
      let step =
        next-at (short_header size rest) [] [] moov_box 0
          (min (length (short_header size rest)) (length (short_header size rest)))
          (sym (append-nil (short_header size rest))) (refl, omega arith) refl (omega arith)
          (omega arith) in
      rw (step, find_from) refl

  mvhd : Atom
  mvhd = record { fourcc = codes "mvhd"; header_size = 8; data_start = 16; data_end = 8 + size }

  find_mvhd :
      find_atom
        (short_header size rest)
        (atom_at 0 moov_box).data_start
        (atom_at 0 moov_box).data_end
        (codes "mvhd")
      ≡ ok (some mvhd)
  unfolding find_atom new rounds find_from moov_box mvhd
  find_mvhd =
      let step =
        next-short size rest (min (atom_at 0 moov_box).data_end (length (short_header size rest)))
          low high (omega arith) in
      rw (step, find_from) refl

  slice_panics : slice (short_header size rest) 16 (8 + size) ≡ panics
  unfolding slice
  slice_panics = let over : leb 16 (8 + size) ≡ false = ground arith in rw over refl

  parse_mvhd_panics : parse_mvhd (short_header size rest) (atom_at 0 moov_box) ≡ panics
  unfolding parse_mvhd require_atom parse_mdhd mvhd
  parse_mvhd_panics = rw (find_mvhd, slice_panics) refl

  -- A movie header whose 32-bit size is from 2 to 7, below the eight bytes of the header itself, makes
  -- the parser panic, whatever follows it in the file, below 2 ^ 32 bytes.
  pub parse_mp4-short_header :
      (F : Type 0) (zero_secs : F) (divide : ℕ → ℕ → F)
      → parse_mp4 F zero_secs divide (short_header size rest) ≡ panics
  unfolding parse_mp4
  parse_mp4-short_header F zero_secs divide = rw (find_moov, parse_mvhd_panics) refl
