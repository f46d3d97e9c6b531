-- ===== src/Seal/Framing/Layout.antt =====
-- What Seal writes, Unseal takes apart again; and the files that make it panic.
use mathlib.Core.List.{append-nil, append_assoc}
use marblerun.Base.{
  Bytes, Slice, [], ap, arith, length, none, ok, refl, some, ℕ, ◌++◌, ◌+◌, ◌<◌, ◌∷◌, ◌≡◌, bytes_of,
  drop, drop-append, length-append, sym, take, take-append, ◌-◌, ◌∙◌, ◌≤◌, panic,
}
use marblerun.Seal.Framing.{
  put_uint32, slice, uint32_mod, uint32_of, frame, unframe, end_of, split_at, unencrypted_part,
  unframe_plain,
}

-- What Unseal returns of unencrypted data: nothing for empty data.
abbrev pub kept : Slice → Slice
kept none = none
kept (some []) = none
kept (some (b ∷ bs)) = some (b ∷ bs)

uint32_of-put_uint32 :
    (n : ℕ) (rest : Bytes) → n < uint32_mod → uint32_of (put_uint32 n ++ rest) ≡ ok n
unfolding uint32_of put_uint32
uint32_of-put_uint32 n rest h = ap ok (omega arith)

length-put_uint32 : (n : ℕ) → length (put_uint32 n) ≡ 4
unfolding put_uint32
length-put_uint32 n = refl

pub slice-eq-ok :
    (l : Bytes) (lo hi : ℕ)
    → lo ≤ hi
    → hi ≤ length l
    → slice l lo hi ≡ ok (take (hi - lo) (drop lo l))
unfolding slice
slice-eq-ok l lo hi h k = ground arith

-- The middle part of three, and the rest after a prefix.
slice-middle :
    (xs ys zs : Bytes) (lo hi : ℕ)
    → lo ≡ length xs
    → hi ≡ length xs + length ys
    → slice (xs ++ (ys ++ zs)) lo hi ≡ ok ys
slice-middle xs ys zs lo hi a b =
    let whole = length-append xs (ys ++ zs) in
    let last = length-append ys zs in
    slice-eq-ok (xs ++ (ys ++ zs)) lo hi (omega arith) (omega arith)
    ∙ ap ok (
        ap (λ n. take (hi - n) (drop n (xs ++ (ys ++ zs)))) a
        ∙ ap (take (hi - length xs)) (drop-append xs (ys ++ zs))
        ∙ ap (λ n. take n (ys ++ zs)) (omega arith)
        ∙ take-append ys zs)

slice-rest :
    (xs ys : Bytes) (lo : ℕ) → lo ≡ length xs → slice (xs ++ ys) lo (length (xs ++ ys)) ≡ ok ys
slice-rest xs ys lo a =
    ap (λ l. slice (xs ++ l) lo (length (xs ++ ys))) (sym (append-nil ys))
    ∙ slice-middle xs ys [] lo (length (xs ++ ys)) a (length-append xs ys)

-- Taking apart what follows a header of four bytes.
split_at-frame :
    (h : Bytes) (u : Slice) (c : Bytes)
    → length h ≡ 4
    → 4 + length (bytes_of u) < uint32_mod
    → split_at (h ++ (bytes_of u ++ c)) (length (bytes_of u)) ≡ ok (kept u, c)
unfolding split_at unencrypted_part
split_at-frame h none c four fits = rw (slice-rest h c (end_of 0) (omega arith))
split_at-frame h (some []) c four fits = rw (slice-rest h c (end_of 0) (omega arith))
split_at-frame h (some (b ∷ bs)) c four fits =
    let l = h ++ ((b ∷ bs) ++ c) in
    ground (
      arith,
      slice-middle h (b ∷ bs) c 4 (end_of (length (b ∷ bs))) (omega arith) (omega arith),
      rest,
    )
  where
    lengths : end_of (length (b ∷ bs)) ≡ length (h ++ (b ∷ bs))
    lengths = omega (arith, length-append h (b ∷ bs))

    rest :
        slice (h ++ ((b ∷ bs) ++ c)) (end_of (length (b ∷ bs))) (length (h ++ ((b ∷ bs) ++ c)))
        ≡ ok c
    rest =
        rw (← append_assoc h (b ∷ bs) c)
          (slice-rest (h ++ (b ∷ bs)) c (end_of (length (b ∷ bs))) lengths)

frame-parts :
    (u : Slice) (c : Bytes)
    → length (bytes_of u) < uint32_mod
    → frame u c ≡ put_uint32 (length (bytes_of u)) ++ (bytes_of u ++ c)
unfolding frame put_uint32
frame-parts u c h = ap (λ n. put_uint32 n ++ (bytes_of u ++ c)) (omega arith)

length-frame :
    (u : Slice) (c : Bytes)
    → length (put_uint32 (length (bytes_of u)) ++ (bytes_of u ++ c))
      ≡ 4 + length (bytes_of u) + length c
length-frame u c = omega (
  arith,
  length-append (put_uint32 (length (bytes_of u))) (bytes_of u ++ c),
  length-append (bytes_of u) c,
  length-put_uint32 (length (bytes_of u)),
)

-- A frame whose length a uint32 holds is taken apart into what it was made of.
pub unframe-frame :
    (u : Slice) (c : Bytes)
    → 0 < length c
    → 4 + length (bytes_of u) + length c < uint32_mod
    → unframe (frame u c) ≡ ok (kept u, c)
unfolding unframe
unframe-frame u c p h =
    let n = length (bytes_of u) in
    rw (frame-parts u c (omega arith)) (
      ground (
        arith,
        uint32_of-put_uint32 n (bytes_of u ++ c) (omega arith),
        split_at-frame (put_uint32 n) u c (length-put_uint32 n) (omega arith),
        length-frame u c,
      ))

-- The reader that computes in int takes apart every frame whose unencrypted part is 4 bytes short of
-- 2^32, whatever the length of the ciphertext.
pub unframe_plain-frame :
    (u : Slice) (c : Bytes)
    → 4 + length (bytes_of u) < uint32_mod
    → unframe_plain (frame u c) ≡ ok (kept u, c)
unfolding unframe_plain
unframe_plain-frame u c h =
    let n = length (bytes_of u) in
    rw (frame-parts u c (omega arith)) (
      ground (
        arith,
        uint32_of-put_uint32 n (bytes_of u ++ c) (omega arith),
        split_at-frame (put_uint32 n) u c (length-put_uint32 n) (omega arith),
        length-frame u c,
      ))

-- A file with more than four bytes and fewer than 2^32, whose header stands for one of the four
-- largest numbers of 32 bits, passes the bounds check, because 4 + n wraps round, and panics when it
-- is sliced.
pub unframe_wraps :
    (sealed : Bytes) (n : ℕ)
    → 4 < length sealed
    → length sealed < uint32_mod
    → uint32_of sealed ≡ ok n
    → uint32_mod ≤ n + 4
    → n < uint32_mod
    → unframe sealed ≡ panic "slice bounds out of range"
unfolding unframe split_at unencrypted_part slice
unframe_wraps sealed n long short e big small = ground arith
