-- ===== src/Net/Ring/Bytes.antt =====
-- The copies of kernel/net/net_buf.c: what is written is what is read.
use brackos.Base.{
  ℕ, zero, suc, ◌+◌, ◌*◌, ◌/◌, ◌%◌, ◌^◌, ◌≤◌, ◌<◌, ◌≡◌, refl, ◌∙◌, true, List, [], ◌∷◌, ◌==◌,
  if◌then◌else◌, length, take, arith,
}
use brackos.Net.Ring.{put, get, word_bytes, word_at}

-- A copy does not touch the bytes in front of it.
pub put-before : (m : ℕ → ℕ) (at : ℕ) (bs : List ℕ) (q : ℕ) → q < at → put m at bs q ≡ m q
unfolding put
put-before m at [] q h = refl
put-before m at (b ∷ bs) q h =
    put-before (λ k. if k == at then b else m k) (at + 1) bs q (omega arith) ∙ ground arith

pub get-put : (m : ℕ → ℕ) (at : ℕ) (bs : List ℕ) → get (put m at bs) at (length bs) ≡ bs
unfolding get put
get-put m at [] = refl
get-put m at (b ∷ bs) =
    let here = put-before m' (at + 1) bs at (omega arith) in
    let self : (at == at) ≡ true = ground arith in rw (here, self, get-put m' (at + 1) bs) refl
  where
    m' : ℕ → ℕ
    m' k = if k == at then b else m k

word_value :
    (n : ℕ)
    → n < 2 ^ 32
    → n % 256 + 256 * (n / 256 % 256) + 65536 * (n / 65536 % 256) + 16777216 * (n / 16777216 % 256)
      ≡ n
word_value n h = omega arith

-- The word that is read where one was written, whatever is written behind it.
pub word_at-put :
    (m : ℕ → ℕ) (at n : ℕ) (bs : List ℕ)
    → n < 2 ^ 32
    → word_at (put (put m at (word_bytes n)) (at + 4) bs) at ≡ n
unfolding word_at word_bytes put
word_at-put m at n bs h =
    rw
      (
        put-before w (at + 4) bs at (omega arith),
        put-before w (at + 4) bs (at + 1) (omega arith),
        put-before w (at + 4) bs (at + 1 + 1) (omega arith),
        put-before w (at + 4) bs (at + 1 + 1 + 1) (omega arith),
      )
      (ground (arith, word_value n h))
  where
    w : ℕ → ℕ
    w = put m at (word_bytes n)

pub get-same :
    (m m' : ℕ → ℕ) (at n j : ℕ)
    → ((q : ℕ) → q < j → m' q ≡ m q)
    → at + n ≤ j
    → get m' at n ≡ get m at n
unfolding get
get-same m m' at zero j f h = refl
get-same m m' at (suc n) j f h =
    rw (f at (omega arith), get-same m m' (at + 1) n j f (omega arith)) refl

pub word_at-same :
    (m m' : ℕ → ℕ) (at j : ℕ)
    → ((q : ℕ) → q < j → m' q ≡ m q)
    → at + 4 ≤ j
    → word_at m' at ≡ word_at m at
unfolding word_at
word_at-same m m' at j f h =
    rw
      (
        f at (omega arith),
        f (at + 1) (omega arith),
        f (at + 1 + 1) (omega arith),
        f (at + 1 + 1 + 1) (omega arith),
      )
      refl

pub take_all : (xs : List ℕ) → take (length xs) xs ≡ xs
take_all [] = refl
take_all (x ∷ xs) = rw (take_all xs) refl
