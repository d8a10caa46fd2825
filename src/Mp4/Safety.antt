-- ===== src/Mp4/Safety.antt =====
-- `find_atom` and the readers of tables on a buffer whose atoms have room for their headers
-- (mp4_parse.rs): no slice panics, and every loop ends.
use nozdormu.Prelude.{
  ℕ, zero, suc, ◌+◌, ◌≤◌, ◌<◌, ◌≡◌, ap, ◌∙◌, true, Option, none, some, ltb, length, arith,
  Bool-cases, Option-cases, inl, inr, le→leb,
}
use nozdormu.Prelude.Text.{text_eq, text_eq_iff}
use nozdormu.Mp4.{Bytes, Outcome, ok, ◌>>=◌, slice}
use nozdormu.Mp4.Atoms.{AtomIter, Atom, new, read_atom, next, find_from, rounds, find_atom}
use nozdormu.Mp4.Reach.{
  Returns, Anything, >>=-Returns, IsStep, read_atom-Returns, is_container, Reaches, HasRoom, IsOpen,
}

-- What `next` gives is a step, or an error.
pub next-Returns :
    (buffer : Bytes) (it : AtomIter) (item : Outcome (Atom × AtomIter))
    → next buffer it ≡ some item
    → Returns (IsStep it) item
unfolding next
next-Returns buffer it item e = elim (Bool-cases (ltb it.end (it.offset + 8))) [
  | inl t ↦ cc (rw t at e)
  | inr f ↦
      let same : read_atom buffer it ≡ item = cc (rw f at e) in
      rw (← same) (read_atom-Returns buffer it)
]

-- What a search gives: nothing, or an open atom
abbrev pub IsOpen? : Bytes → Bytes → Option Atom → Type 0
IsOpen? buffer kind none = Unit
IsOpen? buffer kind (some atom) = IsOpen buffer kind atom

module _ (buffer : Bytes) (room : HasRoom buffer) where
  fourcc-IsOpen :
      (it : AtomIter) (kind : Bytes) (r : Atom × AtomIter)
      → Reaches buffer it
      → it.end ≤ length buffer
      → next buffer it ≡ some (ok r)
      → IsStep it r
      → text_eq r.0.fourcc kind ≡ true
      → IsOpen buffer kind r.0
  fourcc-IsOpen it kind r reaches fits e step same =
      let named : r.0.fourcc ≡ kind = (text_eq_iff r.0.fourcc kind).0 same in
      (room it r reaches e, omega arith, λ c. Reaches.inside reaches e (ap is_container named ∙ c))

  find_from-Returns :
      (fuel : ℕ) (it : AtomIter) (kind : Bytes)
      → Reaches buffer it
      → it.end ≤ length buffer
      → 0 < fuel
      → it.end < it.offset + fuel
      → Returns (IsOpen? buffer kind) (find_from fuel buffer it kind)
  unfolding find_from
  find_from-Returns zero it kind reaches fits f g = absurd (omega arith)
  find_from-Returns (suc fuel) it kind reaches fits f g = elim (Option-cases (next buffer it)) [
    | inl e ↦ rw (e, find_from) (Returns.returned {a = none} tt)
    | inr (item, e) ↦
        rw (e, find_from)
          (>>=-Returns (IsStep it) (IsOpen? buffer kind) item _ (next-Returns buffer it item e)
            (λ r e' step.
              let known = e ∙ ap some e' in
              let far = room it r reaches known in
              elim (Bool-cases (text_eq r.0.fourcc kind)) [
                | inl t ↦ rw t (
                    Returns.returned {a = some r.0}
                      (fourcc-IsOpen it kind r reaches fits known step t))
                | inr n ↦ rw n (
                    find_from-Returns fuel r.1 kind (Reaches.later reaches known) (omega arith)
                      (omega arith) (omega arith))
              ]))
  ]

  pub find_atom-Returns :
      (kind : Bytes) (start end : ℕ)
      → Reaches buffer (new buffer start end)
      → Returns (IsOpen? buffer kind) (find_atom buffer start end kind)
  unfolding find_atom new rounds
  find_atom-Returns kind start end reaches =
      find_from-Returns (suc (length buffer)) _ kind reaches (omega arith) (omega arith)
        (omega arith)

  -- The rule for a step that looks for an atom
  pub >>=-find_atom :
      {B : Type 0} (Q : B → Type 0) (kind : Bytes) (start end : ℕ) (f : Option Atom → Outcome B)
      → Reaches buffer (new buffer start end)
      → Returns Q (f none)
      → ((atom : Atom) → IsOpen buffer kind atom → Returns Q (f (some atom)))
      → Returns Q (find_atom buffer start end kind >>= f)
  >>=-find_atom {B} Q kind start end f reaches h k =
      >>=-Returns (IsOpen? buffer kind) Q _ f (find_atom-Returns kind start end reaches) answer
    where
      answer :
          (found : Option Atom)
          → find_atom buffer start end kind ≡ ok found
          → IsOpen? buffer kind found
          → Returns Q (f found)
      answer none e o = h
      answer (some atom) e o = k atom o

  -- The body of an open atom is sliced without a panic.
  pub slice-Returns :
      (kind : Bytes) (atom : Atom)
      → IsOpen buffer kind atom
      → Returns Anything (slice buffer atom.data_start atom.data_end)
  unfolding slice
  slice-Returns kind atom o =
      let ordered = le→leb _ _ o.0 in
      let fits = le→leb _ _ o.1 in rw (ordered, fits) (Returns.returned tt)
