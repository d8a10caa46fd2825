-- ===== src/Mp4/Boxes.antt =====
-- Boxes that a writer has laid out one after the other are found again by `find_atom`
-- (mp4_parse.rs).
use nozdormu.Prelude.{
  ℕ, zero, suc, ◌+◌, ◌%◌, ◌≤◌, ◌<◌, min, ◌≡◌, refl, sym, ap, ◌∙◌, true, false, Option, none, some,
  List, [], ◌∷◌, ◌++◌, append_assoc, ltb, ◌==◌, if◌then◌else◌, length, arith, length-append,
  Bool-cases, inl, inr, All,
}
use nozdormu.Prelude.Text.{text_eq}
use nozdormu.Mp4.{Bytes, u32_mod, u64_mod, Outcome, ok, slice}
use nozdormu.Mp4.Atoms.{Atom, new, sizes, make_atom, read_atom, next, find_from, rounds, find_atom}
use nozdormu.Mp4.Layout.{print_u32, read_u32-at, read_fourcc-at, slice-at}

pub record Box : Type 0 where
  pub kind : Bytes
  pub body : Bytes

abbrev pub print_box : Box → Bytes
print_box b = print_u32 (length b.body + 8) ++ (b.kind ++ b.body)

abbrev pub print_boxes : List Box → Bytes
print_boxes [] = []
print_boxes (b ∷ bs) = print_box b ++ print_boxes bs

-- A kind of four bytes, and a size of 32 bits
abbrev pub IsBox : Box → Type 0
IsBox b = (length b.kind ≡ 4) × (length b.body + 8 < u32_mod)

abbrev pub atom_at : ℕ → Box → Atom
atom_at offset b = record {
  fourcc = b.kind;
  header_size = 8;
  data_start = offset + 8;
  data_end = offset + (length b.body + 8);
}

kind_place :
    (pre post : Bytes) (b : Box)
    → pre ++ (print_box b ++ post)
      ≡ (pre ++ print_u32 (length b.body + 8)) ++ (b.kind ++ (b.body ++ post))
kind_place pre post b = simp append_assoc

body_place :
    (pre post : Bytes) (b : Box)
    → pre ++ (print_box b ++ post)
      ≡ (pre ++ (print_u32 (length b.body + 8) ++ b.kind)) ++ (b.body ++ post)
body_place pre post b = simp append_assoc

read_atom-at :
    (pre post : Bytes) (b : Box) (offset end : ℕ)
    → IsBox b
    → offset ≡ length pre
    → offset + (length b.body + 8) ≤ end
    → end < u64_mod
    → read_atom (pre ++ (print_box b ++ post)) (record { offset = offset; end = end })
      ≡ ok (atom_at offset b, record { offset = offset + (length b.body + 8); end = end })
unfolding read_atom sizes make_atom
read_atom-at pre post b offset end h eo fits small =
    let size = read_u32-at (length b.body + 8) offset pre ((b.kind ++ b.body) ++ post) eo h.1 in
    let header = length-append pre (print_u32 (length b.body + 8)) in
    let kind =
      read_fourcc-at b.kind (offset + 4) (pre ++ print_u32 (length b.body + 8)) (b.body ++ post)
        (omega arith) h.0 in
    let no_one : length b.body + 8 == 1 ≡ false = ground arith in
    let no_zero : length b.body + 8 == 0 ≡ false = ground arith in
    let same : (offset + (length b.body + 8)) % u64_mod ≡ offset + (length b.body + 8) =
      omega arith in
    let inside : ltb end (offset + (length b.body + 8)) ≡ false = ground arith in
    rw (size, kind_place pre post b, kind, no_one, no_zero, same, inside)

length-print_box : (b : Box) → IsBox b → length (print_box b) ≡ length b.body + 8
length-print_box b h = let whole = length-append b.kind b.body in omega (arith, h.0)

pub next-at :
    (buffer pre post : Bytes) (b : Box) (offset end : ℕ)
    → buffer ≡ pre ++ (print_box b ++ post)
    → IsBox b
    → offset ≡ length pre
    → offset + (length b.body + 8) ≤ end
    → end < u64_mod
    → next buffer (record { offset = offset; end = end })
      ≡ some (ok (atom_at offset b, record { offset = offset + (length b.body + 8); end = end }))
unfolding next
next-at buffer pre post b offset end e h eo fits small =
    let room : ltb end (offset + 8) ≡ false = ground arith in
    rw (room, e, read_atom-at pre post b offset end h eo fits small) refl

next-end :
    (buffer : Bytes) (offset end : ℕ)
    → end < offset + 8
    → next buffer (record { offset = offset; end = end }) ≡ none
unfolding next
next-end buffer offset end h = let over : ltb end (offset + 8) ≡ true = ground arith in rw over refl

-- The first box of a kind
abbrev pub first_box : List Box → Bytes → Option Box
first_box [] kind = none
first_box (b ∷ bs) kind = if text_eq b.kind kind then some b else first_box bs kind

-- What a search for a box came to: nothing, or an atom with the box's kind and body
abbrev pub Finds : Bytes → Outcome (Option Atom) → Option Box → Type 0
Finds buffer outcome none = outcome ≡ ok none
Finds buffer outcome (some b) =
    (atom : Atom) × (outcome ≡ ok (some atom))
    × (atom.fourcc ≡ b.kind)
    × (slice buffer atom.data_start atom.data_end ≡ ok b.body)

atom_at-Finds :
    (buffer pre post : Bytes) (b : Box) (offset : ℕ)
    → buffer ≡ pre ++ (print_box b ++ post)
    → IsBox b
    → offset ≡ length pre
    → Finds buffer (ok (some (atom_at offset b))) (some b)
atom_at-Finds buffer pre post b offset e h eo =
    let header = length-append pre (print_u32 (length b.body + 8) ++ b.kind) in
    let four = h.0 in
    (
      atom_at offset b,
      refl,
      refl,
      rw (e, body_place pre post b)
          (slice-at (offset + 8) (offset + (length b.body + 8))
            (pre ++ (print_u32 (length b.body + 8) ++ b.kind)) b.body post (omega arith)
            (omega arith)),
    )

find_from-boxes :
    (buffer pre post kind : Bytes) (boxes : List Box) (offset end fuel : ℕ)
    → buffer ≡ pre ++ (print_boxes boxes ++ post)
    → All IsBox boxes
    → offset ≡ length pre
    → end ≡ offset + length (print_boxes boxes)
    → end < u64_mod
    → length (print_boxes boxes) < fuel
    → Finds buffer
        (find_from fuel buffer (record { offset = offset; end = end }) kind)
        (first_box boxes kind)
unfolding find_from
find_from-boxes buffer pre post kind boxes offset end zero e h eo ee small f = absurd (omega arith)
find_from-boxes buffer pre post kind [] offset end (suc fuel) e h eo ee small f =
    rw (next-end buffer offset end (omega arith), find_from) refl
find_from-boxes buffer pre post kind (b ∷ bs) offset end (suc fuel) e h eo ee small f =
    let here : buffer ≡ pre ++ (print_box b ++ (print_boxes bs ++ post)) =
      e ∙ ap (λ t. pre ++ t) (append_assoc (print_box b) (print_boxes bs) post) in
    let there : buffer ≡ (pre ++ print_box b) ++ (print_boxes bs ++ post) =
      here ∙ sym (append_assoc pre (print_box b) (print_boxes bs ++ post)) in
    let own = length-print_box b h.0 in
    let both = length-append (print_box b) (print_boxes bs) in
    let before = length-append pre (print_box b) in
    let step =
      next-at buffer pre (print_boxes bs ++ post) b offset end here h.0 eo (omega arith) small in
    elim (Bool-cases (text_eq b.kind kind)) [
      | inl t ↦
          rw (step, find_from, t)
            (atom_at-Finds buffer pre (print_boxes bs ++ post) b offset here h.0 eo)
      | inr n ↦
          rw (step, find_from, n)
            (find_from-boxes buffer (pre ++ print_box b) post kind bs (offset + (length b.body + 8))
              end fuel there h.1 (omega arith) (omega arith) small (omega arith))
    ]

-- In a buffer that holds boxes one after the other between two other parts, the search between
-- them for a kind finds the first box of that kind: an atom of this kind whose slice is the body
-- of the box. Where no box is of the kind it answers that there is none. Kinds are four bytes long,
-- the boxes are below 2 ^ 32 bytes, and the buffer below 2 ^ 64.
pub find_atom-boxes :
    (pre post kind : Bytes) (boxes : List Box)
    → All IsBox boxes
    → length (pre ++ (print_boxes boxes ++ post)) < u64_mod
    → Finds
        (pre ++ (print_boxes boxes ++ post))
        (find_atom
          (pre ++ (print_boxes boxes ++ post))
          (length pre)
          (length pre + length (print_boxes boxes))
          kind)
        (first_box boxes kind)
unfolding find_atom new rounds
find_atom-boxes pre post kind boxes h small =
    let whole = length-append pre (print_boxes boxes ++ post) in
    let inner = length-append (print_boxes boxes) post in
    let all : min (length pre + length (print_boxes boxes))
          (length (pre ++ (print_boxes boxes ++ post)))
        ≡ length pre + length (print_boxes boxes) =
      omega arith in
    rw all (
      find_from-boxes (pre ++ (print_boxes boxes ++ post)) pre post kind boxes (length pre)
        (length pre + length (print_boxes boxes))
        (suc (length (pre ++ (print_boxes boxes ++ post)))) refl h refl refl (omega arith)
        (omega arith))
