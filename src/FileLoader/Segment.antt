-- ===== src/FileLoader/Segment.antt =====
-- Stretches of a file in which each escape has its byte: what getProps can take apart.
use othire.Base.{
  ℕ, zero, suc, ◌+◌, ◌-◌, ◌≤◌, ◌≡◌, refl, ap, ◌∙◌, List, [], ◌∷◌, ◌++◌, take, drop, get_elem?, some,
  false, ◌==◌, arith,
}
use othire.FileLoader.{escape_char, props, prepend, unescape}
use othire.FileLoader.Load.{unescape_nil, unescape-cons, unescape-escaped}

-- Bytes in which each escape has its byte behind it.
pub data Clean : List ℕ → Type 0 where
  nil : Clean []
  plain : (c : ℕ) {xs : List ℕ} → (c == escape_char) ≡ false → Clean xs → Clean (c ∷ xs)
  escaped : (c : ℕ) {xs : List ℕ} → Clean xs → Clean (escape_char ∷ c ∷ xs)

pub Clean-append : {xs : List ℕ} (ys : List ℕ) → Clean xs → Clean ys → Clean (xs ++ ys)
Clean-append ys nil k = k
Clean-append ys (plain c e h) k = plain c e (Clean-append ys h k)
Clean-append ys (escaped c h) k = escaped c (Clean-append ys h k)

-- getProps takes such bytes apart without reading past them.
pub Clean-unescape : {xs : List ℕ} → Clean xs → (ps : List ℕ) × (unescape xs ≡ props ps)
Clean-unescape nil = ([], unescape_nil)
Clean-unescape (plain c {xs = xs} e h) =
    let (ps, run) = Clean-unescape h in (c ∷ ps, unescape-cons c xs e ∙ ap (prepend c) run)
Clean-unescape (escaped c {xs = xs} h) =
    let (ps, run) = Clean-unescape h in (c ∷ ps, unescape-escaped c xs ∙ ap (prepend c) run)

take-suc :
    (n : ℕ) (xs : List ℕ) (c : ℕ) → get_elem? xs n ≡ some c → take (suc n) xs ≡ take n xs ++ c ∷ []
take-suc zero [] c h = cc
take-suc zero (x ∷ xs) c h = ground arith
take-suc (suc n) [] c h = cc
take-suc (suc n) (x ∷ xs) c h = ap (◌∷◌ x) (take-suc n xs c h)

get_elem?-drop_add : (a n : ℕ) (xs : List ℕ) → get_elem? (drop a xs) n ≡ get_elem? xs (a + n)
get_elem?-drop_add zero n xs = let e : zero + n ≡ n = omega arith in rw e
get_elem?-drop_add (suc a) n [] = refl
get_elem?-drop_add (suc a) n (x ∷ xs) =
    let e : suc a + n ≡ suc (a + n) = omega arith in rw e (get_elem?-drop_add a n xs)

module _ (content : List ℕ) where
  -- the bytes from `a` up to `b`
  abbrev pub segment : ℕ → ℕ → List ℕ
  segment a b = take (b - a) (drop a content)

  pub segment-suc :
      (a pos c : ℕ)
      → a ≤ pos
      → get_elem? content pos ≡ some c
      → segment a (pos + 1) ≡ segment a pos ++ c ∷ []
  segment-suc a pos c h e =
      let n : pos + 1 - a ≡ suc (pos - a) = omega arith in
      let p : a + (pos - a) ≡ pos = omega arith in
      rw n (
        take-suc (pos - a) (drop a content) c
          (get_elem?-drop_add a (pos - a) content ∙ ap (get_elem? content) p ∙ e))
