-- ===== src/Mp4/Layout.antt =====
-- How a writer lays numbers and boxes out, to be read back by mp4_parse.rs.
use nozdormu.Prelude.{
  ℕ, ◌+◌, ◌-◌, ◌/◌, ◌%◌, ◌<◌, ◌≡◌, refl, sym, ap, true, false, List, [], ◌∷◌, ◌++◌, ltb, leb,
  length, take, drop, arith, length-append,
}
use nozdormu.Mp4.{Bytes, u32_mod, ok, read_bytes, read_u32, read_fourcc, slice}

-- `to_be_bytes` of a `u32`
abbrev pub print_u32 : ℕ → Bytes
print_u32 n = n / 16777216 % 256 ∷ n / 65536 % 256 ∷ n / 256 % 256 ∷ n % 256 ∷ []

module _ {A : Type 0} where
  drop-length : (xs ys : List A) → drop (length xs) (xs ++ ys) ≡ ys
  drop-length [] ys = refl
  drop-length (x ∷ xs) ys = drop-length xs ys

  pub drop-append : (n : ℕ) (xs ys : List A) → n ≡ length xs → drop n (xs ++ ys) ≡ ys
  drop-append n xs ys e = rw e (drop-length xs ys)

  take-length : (xs ys : List A) → take (length xs) (xs ++ ys) ≡ xs
  take-length [] ys = refl
  take-length (x ∷ xs) ys = ap (λ t. x ∷ t) (take-length xs ys)

  pub take-append : (n : ℕ) (xs ys : List A) → n ≡ length xs → take n (xs ++ ys) ≡ xs
  take-append n xs ys e = rw e (take-length xs ys)

-- Bytes that stand after a prefix are read.
pub read_bytes-at :
    (width offset : ℕ) (pre bs post : Bytes)
    → offset ≡ length pre
    → width ≡ length bs
    → read_bytes width (pre ++ (bs ++ post)) offset ≡ ok bs
unfolding read_bytes
read_bytes-at width offset pre bs post eo ew =
    let long : ltb (length (pre ++ (bs ++ post))) (offset + width) ≡ false =
      let whole = length-append pre (bs ++ post) in
      let rest = length-append bs post in ground arith in
    rw (long, drop-append offset pre (bs ++ post) eo, take-append width bs post ew)

pub read_u32-at :
    (n offset : ℕ) (pre post : Bytes)
    → offset ≡ length pre
    → n < u32_mod
    → read_u32 (pre ++ (print_u32 n ++ post)) offset ≡ ok n
unfolding read_u32
read_u32-at n offset pre post e small =
    rw (read_bytes-at 4 offset pre (print_u32 n) post e refl) (ap ok (omega arith))

pub read_fourcc-at :
    (kind : Bytes) (offset : ℕ) (pre post : Bytes)
    → offset ≡ length pre
    → length kind ≡ 4
    → read_fourcc (pre ++ (kind ++ post)) offset ≡ ok kind
unfolding read_fourcc
read_fourcc-at kind offset pre post e four = read_bytes-at 4 offset pre kind post e (sym four)

pub slice-at :
    (start end : ℕ) (pre bs post : Bytes)
    → start ≡ length pre
    → end ≡ length pre + length bs
    → slice (pre ++ (bs ++ post)) start end ≡ ok bs
unfolding slice
slice-at start end pre bs post es ee =
    let ordered : leb start end ≡ true = ground arith in
    let whole = length-append pre (bs ++ post) in
    let rest = length-append bs post in
    let fits : leb end (length (pre ++ (bs ++ post))) ≡ true = ground arith in
    let width : end - start ≡ length bs = omega arith in
    rw (
      ordered,
      fits,
      drop-append start pre (bs ++ post) es,
      take-append (end - start) bs post width,
    )
