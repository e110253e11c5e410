-- ===== src/IoQueue/Store.antt =====
-- The memory side of IO::Queue: `resize`, `memcpy` and the stocks of buffers.
use syncme.Prelude.{
  ℕ, zero, suc, ◌+◌, ◌-◌, ◌≤◌, ◌≡◌, refl, ap, sym, ◌∙◌, some, List, [], ◌∷◌, ◌++◌, arith, length,
  take, drop, length-append, length-take, take-append_length, drop-append_length, append-nil,
  append_assoc, drop-nil, drop-drop, length-drop,
}
use syncme.IoQueue.{Buffer, copy_at, pad, resize, fill, join_loop, back, set_back}

-- The bytes of the packets, in order.
abbrev pub flatten : List Buffer → List ℕ
flatten [] = []
flatten (b ∷ bs) = b ++ flatten bs

pub flatten-append : (xs ys : List Buffer) → flatten (xs ++ ys) ≡ flatten xs ++ flatten ys
flatten-append [] ys = refl
flatten-append (x ∷ xs) ys =
    ap (λ t. x ++ t) (flatten-append xs ys) ∙ sym (append_assoc x (flatten xs) (flatten ys))

take_all : (xs : List ℕ) (n : ℕ) → length xs ≤ n → take n xs ≡ xs
take_all [] zero h = refl
take_all [] (suc n) h = refl
take_all (x ∷ xs) zero h = elim h [ ]
take_all (x ∷ xs) (suc n) h = ap (λ t. x ∷ t) (take_all xs n (omega arith))

drop_all : (xs : List ℕ) (n : ℕ) → length xs ≤ n → drop n xs ≡ []
drop_all [] n h = drop-nil n
drop_all (x ∷ xs) zero h = elim h [ ]
drop_all (x ∷ xs) (suc n) h = drop_all xs n (omega arith)

-- A prefix that is kept, and a tail that is written over.
copy_at-append :
    (xs tail src : List ℕ)
    → length src ≤ length tail
    → copy_at (xs ++ tail) (length xs) src ≡ some (xs ++ (src ++ drop (length src) tail))
unfolding copy_at
copy_at-append xs tail src h = ground (
  arith,
  length-append xs tail,
  take-append_length xs tail,
  drop-drop (length src) (length xs) (xs ++ tail),
  drop-append_length xs tail,
)

module _ (junk : ℕ → ℕ) where
  length-pad : (from n : ℕ) → length (pad junk from n) ≡ n
  unfolding pad
  length-pad from zero = refl
  length-pad from (suc n) = ap suc (length-pad (from + 1) n)

  length-resize : (b : Buffer) (n : ℕ) → length (resize junk b n) ≡ n
  unfolding resize
  length-resize b n = omega (
    arith,
    length-append (take n b) (pad junk (length b) (n - length b)),
    length-take n b,
    length-pad (length b) (n - length b),
  )

  -- Growing a buffer keeps its bytes.
  resize-grow :
      (b : Buffer) (n : ℕ)
      → length b ≤ n
      → resize junk b n ≡ b ++ pad junk (length b) (n - length b)
  unfolding resize
  resize-grow b n h = ap (λ t. t ++ pad junk (length b) (n - length b)) (take_all b n h)

  -- A buffer that is resized and filled holds the bytes given and nothing else.
  pub fill_lem : (b : Buffer) (bytes : List ℕ) → fill junk b bytes ≡ some bytes
  unfolding fill
  fill_lem b bytes =
      copy_at-append [] (resize junk b (length bytes)) bytes
        (omega (arith, length-resize b (length bytes)))
      ∙ ap (λ t. some (bytes ++ t))
          (drop_all (resize junk b (length bytes)) (length bytes)
            (omega (arith, length-resize b (length bytes))))
      ∙ ap some (append-nil bytes)

  -- So does one that is grown by the bytes: they come behind what it held.
  pub copy_at-grow :
      (b : Buffer) (bytes : List ℕ)
      → copy_at (resize junk b (length b + length bytes)) (length b) bytes ≡ some (b ++ bytes)
  copy_at-grow b bytes =
      ap (λ t. copy_at t (length b) bytes) (resize-grow b (length b + length bytes) (omega arith))
      ∙ copy_at-append b tail bytes (omega (arith, long))
      ∙ ap (λ t. some (b ++ (bytes ++ t))) (drop_all tail (length bytes) (omega (arith, long)))
      ∙ ap (λ t. some (b ++ t)) (append-nil bytes)
    where
      tail : List ℕ
      tail = pad junk (length b) (length b + length bytes - length b)

      long : length tail ≡ length b + length bytes - length b
      long = length-pad (length b) (length b + length bytes - length b)

-- The loop of Join writes the packets one behind the other.
join_loop-append :
    (bs : List Buffer) (xs tail : List ℕ)
    → length tail ≡ length (flatten bs)
    → join_loop (xs ++ tail) (length xs) bs ≡ some (xs ++ flatten bs)
unfolding join_loop
join_loop-append [] xs [] h = refl
join_loop-append [] xs (t ∷ ts) h = absurd (omega arith)
join_loop-append (b ∷ bs) xs tail h =
    rw (copy_at-append xs tail b (omega (arith, length-append b (flatten bs)))) (
      ap (λ t. join_loop t (length xs + length b) bs)
        (sym (append_assoc xs b (drop (length b) tail)))
      ∙ ap (λ n. join_loop ((xs ++ b) ++ drop (length b) tail) n bs) (sym (length-append xs b))
      ∙ join_loop-append bs (xs ++ b) (drop (length b) tail)
          (omega (arith, length-append b (flatten bs), length-drop (length b) tail))
      ∙ ap some (append_assoc xs b (flatten bs)))

pub join_loop_lem :
    (junk : ℕ → ℕ) (b : Buffer) (bs : List Buffer)
    → join_loop (resize junk b (length (b ++ flatten bs))) (length b) bs ≡ some (b ++ flatten bs)
join_loop_lem junk b bs =
    ap (λ t. join_loop t (length b) bs)
      (resize-grow junk b (length (b ++ flatten bs)) (omega (arith, length-append b (flatten bs))))
    ∙ join_loop-append bs b _ (
        omega (
          arith,
          length-append b (flatten bs),
          length-pad junk (length b) (length (b ++ flatten bs) - length b),
        ))

-- The last packet is the end of the content.
pub flatten-set_back :
    (bs : List Buffer) (b : Buffer) (bytes : List ℕ)
    → back bs ≡ some b
    → flatten (set_back bs (b ++ bytes)) ≡ flatten bs ++ bytes
unfolding back set_back
flatten-set_back [] b bytes e = cc
flatten-set_back (x ∷ []) b bytes e = ground (arith, append-nil (b ++ bytes), append-nil b)
flatten-set_back (x ∷ y ∷ bs) b bytes e =
    ap (λ t. x ++ t) (flatten-set_back (y ∷ bs) b bytes e)
    ∙ sym (append_assoc x (flatten (y ∷ bs)) bytes)
