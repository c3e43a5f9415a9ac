-- ===== src/Dataset/Address.antt =====
-- The address of a row in AnnService/inc/Core/Common/Dataset.h.
use mathlib.Core.List.{append_assoc}
use native.Mathlib.Nat.{div-add-mod', mod-lt, one-le-pow, zero-add, zero-mul}
use sptag.Base.{
  ℕ, zero, suc, ◌+◌, ◌-◌, ◌*◌, ◌/◌, ◌%◌, ◌≤◌, ◌<◌, ◌≡◌, refl, ap, sym, ◌∙◌, inl, inr, Bool, true,
  List, [], ◌∷◌, ◌++◌, length, length-append, length-take, take, get_elem?, ltb, ◌==◌, ◌>>=◌, arith,
  Bool-cases,
}
use sptag.Base.Sums.{every}
use sptag.Dataset.{Dataset, at, r, block_size, overwrite, update_block}
use sptag.Dataset.Overwrite.{
  length-overwrite, overwrite-append_inside, overwrite-append_past, get_elem?-take,
  get_elem?-append_inside, get_elem?-append_past,
}

module _ {ℓ} {A : Type ℓ} where
  unfoldable pub flat : List (List A) → List A
  flat [] = []
  flat (b ∷ blocks) = b ++ flat blocks

  unfoldable pub has_size : ℕ → List A → Bool
  has_size size b = length b == size

  pub length-flat :
      (size : ℕ) (blocks : List (List A))
      → every (has_size size) blocks ≡ true
      → length (flat blocks) ≡ length blocks * size
  unfolding flat every has_size
  length-flat size [] h = omega arith
  length-flat size (b ∷ blocks) h =
      let first : length b ≡ size = ground (arith, h) in
      let others = length-flat size blocks (ground (arith, h)) in
      length-append b (flat blocks) ∙ omega (arith, first, others)

  pub flat-append : (bs cs : List (List A)) → flat (bs ++ cs) ≡ flat bs ++ flat cs
  unfolding flat
  flat-append [] cs = refl
  flat-append (b ∷ bs) cs =
      ap (◌++◌ b) (flat-append bs cs) ∙ sym (append_assoc b (flat bs) (flat cs))

  pub get_elem?-flat :
      (size : ℕ) (blocks : List (List A)) (q i : ℕ)
      → every (has_size size) blocks ≡ true
      → i < size
      → (get_elem? blocks q >>= λ b. get_elem? b i) ≡ get_elem? (flat blocks) (q * size + i)
  unfolding flat every has_size
  get_elem?-flat size [] q i h l = refl
  get_elem?-flat size (b ∷ blocks) zero i h l =
      let first : length b ≡ size = ground (arith, h) in
      simp (zero-mul, zero-add) (sym (get_elem?-append_inside b (flat blocks) i (omega arith)))
  get_elem?-flat size (b ∷ blocks) (suc q) i h l =
      let first : length b ≡ size = ground (arith, h) in
      let place : suc q * size + i ≡ length b + (q * size + i) = omega (arith, first) in
      get_elem?-flat size blocks q i (ground (arith, h)) l
      ∙ sym (
          ap (get_elem? (b ++ flat blocks)) place
          ∙ get_elem?-append_past b (flat blocks) (q * size + i))

  pub flat-write :
      (size : ℕ) (blocks : List (List A)) (q i : ℕ) (ys : List A)
      → every (has_size size) blocks ≡ true
      → q < length blocks
      → i + length ys ≤ size
      → flat (update_block blocks q (λ b. overwrite b i ys))
        ≡ overwrite (flat blocks) (q * size + i) ys
  unfolding flat every has_size update_block
  flat-write size [] q i ys h inside l = absurd (omega arith)
  flat-write size (b ∷ blocks) zero i ys h inside l =
      let first : length b ≡ size = ground (arith, h) in
      simp (zero-mul, zero-add) (sym (overwrite-append_inside b (flat blocks) i ys (omega arith)))
  flat-write size (b ∷ blocks) (suc q) i ys h inside l =
      let first : length b ≡ size = ground (arith, h) in
      let place : suc q * size + i ≡ length b + (q * size + i) = omega (arith, first) in
      ap (◌++◌ b) (flat-write size blocks q i ys (ground (arith, h)) (omega arith) l)
      ∙ sym (
          ap (λ n. overwrite (b ++ flat blocks) n ys) place
          ∙ overwrite-append_past b (flat blocks) (q * size + i) ys)

  pub update_block-sizes :
      (size : ℕ) (blocks : List (List A)) (q i : ℕ) (ys : List A)
      → every (has_size size) blocks ≡ true
      → every (has_size size) (update_block blocks q (λ b. overwrite b i ys)) ≡ true
  unfolding every has_size update_block
  update_block-sizes size [] q i ys h = refl
  update_block-sizes size (b ∷ blocks) zero i ys h = ground (arith, length-overwrite b i ys, h)
  update_block-sizes size (b ∷ blocks) (suc q) i ys h =
      ground (arith, update_block-sizes size blocks q i ys (ground (arith, h)), h)

  pub length-update_block :
      (blocks : List (List A)) (q : ℕ) (f : List A → List A)
      → length (update_block blocks q f) ≡ length blocks
  unfolding update_block
  length-update_block [] q f = refl
  length-update_block (b ∷ blocks) zero f = refl
  length-update_block (b ∷ blocks) (suc q) f = ap suc (length-update_block blocks q f)

  pub record IsValid (d : Dataset A) : Type ℓ where
    pub owned : d.rows ≤ length d.data_
    pub sizes : every (has_size (block_size d)) d.inc_blocks ≡ true
    pub inside : d.inc_rows ≤ length d.inc_blocks * block_size d

  -- the rows in order
  unfoldable pub view : Dataset A → List A
  view d = take d.rows d.data_ ++ take d.inc_rows (flat d.inc_blocks)

  pub block_size-positive : (d : Dataset A) → 0 < block_size d
  unfolding block_size
  block_size-positive d = one-le-pow d.rows_in_block_ex 2 (omega arith)

  pub length-view : (d : Dataset A) → IsValid d → length (view d) ≡ r d
  unfolding view r
  length-view d v =
      let first = length-take d.rows d.data_ in
      let others = length-take d.inc_rows (flat d.inc_blocks) in
      let flat_length = length-flat (block_size d) d.inc_blocks v.sizes in
      let h1 = v.owned in
      let h2 = v.inside in
      length-append (take d.rows d.data_) (take d.inc_rows (flat d.inc_blocks))
      ∙ omega (arith, first, others, flat_length, h1, h2)

  -- On a well-formed dataset At of an index below R finds, by its block and its place in the
  -- block, what stands at that index in the sequence of the rows.
  pub at-view :
      (d : Dataset A) (index : ℕ) → IsValid d → index < r d → at d index ≡ get_elem? (view d) index
  unfolding at view r
  at-view d index v l =
      let h1 = v.owned in
      let first : length (take d.rows d.data_) ≡ d.rows =
        omega (arith, length-take d.rows d.data_, h1) in
      elim (Bool-cases (ltb index d.rows)) [
        | inl low ↦ rw low (
            sym (
              get_elem?-append_inside (take d.rows d.data_) (take d.inc_rows (flat d.inc_blocks))
                index (ground (arith, first))
              ∙ get_elem?-take d.data_ d.rows index (ground arith)))
        | inr high ↦
            let i = index - d.rows in
            let place : index ≡ length (take d.rows d.data_) + i = ground (arith, first) in
            let euclid = div-add-mod' i (block_size d) in
            rw high (
              get_elem?-flat (block_size d) d.inc_blocks (i / block_size d) (i % block_size d)
                v.sizes (mod-lt i (block_size-positive d))
              ∙ ap (get_elem? (flat d.inc_blocks)) euclid
              ∙ sym (get_elem?-take (flat d.inc_blocks) d.inc_rows i (ground arith))
              ∙ sym (
                  ap (get_elem? (take d.rows d.data_ ++ take d.inc_rows (flat d.inc_blocks))) place
                  ∙ get_elem?-append_past (take d.rows d.data_)
                      (take d.inc_rows (flat d.inc_blocks)) i))
      ]
