-- ===== src/Base/Lists.antt =====
-- Lists measured and indexed by native numbers: buffers, files and the containers of the standard library.
use Prim.Native.Nat.{ℕ, zero, suc, ◌+◌, ◌-◌, ◌<◌, min}
use mathlib.Core.Path.{◌≡◌, refl, ap}
use mathlib.Core.List.{List, [], ◌∷◌, ◌++◌}
use mathlib.Core.Option.{Option, none, some}
use native.Mathlib.Omega.{arith}

module _ {ℓ} {A : Type ℓ} where
  abbrev pub length : List A → ℕ
  length [] = 0
  length (x ∷ xs) = suc (length xs)

  abbrev pub get_elem? : List A → ℕ → Option A
  get_elem? [] i = none
  get_elem? (x ∷ xs) zero = some x
  get_elem? (x ∷ xs) (suc i) = get_elem? xs i

  abbrev pub take : ℕ → List A → List A
  take zero xs = []
  take (suc n) [] = []
  take (suc n) (x ∷ xs) = x ∷ take n xs

  abbrev pub drop : ℕ → List A → List A
  drop zero xs = xs
  drop (suc n) [] = []
  drop (suc n) (x ∷ xs) = drop n xs

  abbrev pub replicate : ℕ → A → List A
  replicate zero a = []
  replicate (suc n) a = a ∷ replicate n a

module _ {ℓ} {A : Type ℓ} where
  pub length-append : (xs ys : List A) → length (xs ++ ys) ≡ length xs + length ys
  length-append [] ys = omega arith
  length-append (x ∷ xs) ys = omega (arith, length-append xs ys)

  pub length-take : (n : ℕ) (xs : List A) → length (take n xs) ≡ min n (length xs)
  length-take zero xs = omega arith
  length-take (suc n) [] = omega arith
  length-take (suc n) (x ∷ xs) = omega (arith, length-take n xs)

  pub length-drop : (n : ℕ) (xs : List A) → length (drop n xs) ≡ length xs - n
  length-drop zero xs = omega arith
  length-drop (suc n) [] = omega arith
  length-drop (suc n) (x ∷ xs) = omega (arith, length-drop n xs)

  pub length-replicate : (n : ℕ) (a : A) → length (replicate n a) ≡ n
  length-replicate zero a = refl
  length-replicate (suc n) a = ap suc (length-replicate n a)

  pub take_all : (xs : List A) → take (length xs) xs ≡ xs
  take_all [] = refl
  take_all (x ∷ xs) = rw (take_all xs)

  -- The bytes at the front of what is left to read.
  pub take-append : (xs ys : List A) → take (length xs) (xs ++ ys) ≡ xs
  take-append [] ys = refl
  take-append (x ∷ xs) ys = rw (take-append xs ys)

  pub drop-append : (xs ys : List A) → drop (length xs) (xs ++ ys) ≡ ys
  drop-append [] ys = refl
  drop-append (x ∷ xs) ys = drop-append xs ys

  pub drop-drop : (n m : ℕ) (xs : List A) → drop n (drop m xs) ≡ drop (m + n) xs
  drop-drop n zero xs = let e : zero + n ≡ n = omega arith in rw e
  drop-drop zero (suc m) [] = let e : suc m + zero ≡ suc m = omega arith in rw e
  drop-drop (suc n) (suc m) [] = let e : suc m + suc n ≡ suc (m + suc n) = omega arith in rw e
  drop-drop n (suc m) (x ∷ xs) =
      let e : suc m + n ≡ suc (m + n) = omega arith in rw e (drop-drop n m xs)

  -- Reading at a position is reading the head of what follows it.
  pub get_elem?-drop :
      (n : ℕ) (xs : List A) (b : A) (ys : List A) → drop n xs ≡ b ∷ ys → get_elem? xs n ≡ some b
  get_elem?-drop zero [] b ys h = cc
  get_elem?-drop zero (x ∷ xs) b ys h = ground arith
  get_elem?-drop (suc n) [] b ys h = cc
  get_elem?-drop (suc n) (x ∷ xs) b ys h = get_elem?-drop n xs b ys h

  pub get_elem?-drop_nil : (n : ℕ) (xs : List A) → drop n xs ≡ [] → get_elem? xs n ≡ none
  get_elem?-drop_nil zero [] h = refl
  get_elem?-drop_nil zero (x ∷ xs) h = cc
  get_elem?-drop_nil (suc n) [] h = refl
  get_elem?-drop_nil (suc n) (x ∷ xs) h = get_elem?-drop_nil n xs h

  pub get_elem?-lt : (xs : List A) (n : ℕ) (b : A) → get_elem? xs n ≡ some b → n < length xs
  get_elem?-lt [] n b h = cc
  get_elem?-lt (x ∷ xs) zero b h = omega arith
  get_elem?-lt (x ∷ xs) (suc n) b h = omega (arith, get_elem?-lt xs n b h)

module _ {ℓ} {A : Type ℓ} where
  pub take_past : (xs ys : List A) (n : ℕ) → take (length xs + n) (xs ++ ys) ≡ xs ++ take n ys
  take_past [] ys n = let e : zero + n ≡ n = omega arith in rw e
  take_past (x ∷ xs) ys n =
      let e : suc (length xs) + n ≡ suc (length xs + n) = omega arith in rw (e, take_past xs ys n)

  pub drop_past : (xs ys : List A) (n : ℕ) → drop (length xs + n) (xs ++ ys) ≡ drop n ys
  drop_past [] ys n = let e : zero + n ≡ n = omega arith in rw e
  drop_past (x ∷ xs) ys n =
      let e : suc (length xs) + n ≡ suc (length xs + n) = omega arith in rw e (drop_past xs ys n)

or_else {ℓ} : {A : Type ℓ} → A → Option A → A
or_else n none = n
or_else n (some m) = m

pub some_injective {ℓ} : {A : Type ℓ} {n m : A} → some n ≡ some m → n ≡ m
unfolding or_else
some_injective {n = n} h = ap (or_else n) h

module _ {ℓ} {A : Type ℓ} where
  pub get_elem?-take : (m n : ℕ) (xs : List A) → n < m → get_elem? (take m xs) n ≡ get_elem? xs n
  get_elem?-take zero n xs h = let no : n < 0 = h in ground (arith, no)
  get_elem?-take (suc m) n [] h = refl
  get_elem?-take (suc m) zero (x ∷ xs) h = refl
  get_elem?-take (suc m) (suc n) (x ∷ xs) h = get_elem?-take m n xs (omega (arith, h))

  pub get_elem?-drop_add : (m n : ℕ) (xs : List A) → get_elem? (drop m xs) n ≡ get_elem? xs (m + n)
  get_elem?-drop_add zero n xs = let e : zero + n ≡ n = omega arith in rw e refl
  get_elem?-drop_add (suc m) n [] = refl
  get_elem?-drop_add (suc m) n (x ∷ xs) =
      let e : suc m + n ≡ suc (m + n) = omega arith in rw e (get_elem?-drop_add m n xs)
