-- ===== src/Dataset/Append.antt =====
-- `AddBatch` of AnnService/inc/Core/Common/Dataset.h.
use mathlib.Core.List.{append_assoc}
use native.Mathlib.Nat.{div-add-mod', mod-lt, mul-le-mul_right}
use sptag.Base.{
  ℕ, zero, suc, ◌+◌, ◌-◌, ◌*◌, ◌/◌, ◌%◌, ◌≤◌, ◌<◌, ◌≡◌, refl, ap, sym, ◌∙◌, ◌⊎◌, inl, inr, Bool,
  true, false, List, [], ◌∷◌, ◌++◌, Option, none, some, length, length-append, length-take,
  length-drop, length-replicate, min, take, drop, take-append-drop, replicate, ltb, leb, arith,
  Bool-cases,
}
use sptag.Base.Sums.{every, every-append}
use mathlib.Core.List.{append-nil}
use sptag.Dataset.{overwrite, update_block, write_block, grow, copy_rows, add_loop}
use sptag.Dataset.Overwrite.{
  overwrite-append_inside, overwrite-overwrite, drop-drop, drop-past, overwrite-nothing,
}
use sptag.Dataset.Address.{
  flat, has_size, length-flat, flat-append, flat-write, update_block-sizes, length-update_block,
}

module _ {ℓ} {A : Type ℓ} (alloc : ℕ → Bool) (blank : A) (size inc : ℕ) (source : List A) where
  -- the blocks where the loop ends: from row `written` of the source on, rows are written over those before
  pub record Written (written : ℕ) (blocks : List (List A)) (out : Option (Bool × List (List A)))
      : Type ℓ where
    pub done : Bool
    pub after : List (List A)
    pub ends : out ≡ some (done, after)
    pub sizes : every (has_size size) after ≡ true
    pub new : List A
    pub rows : List A
    pub same : flat after ≡ overwrite (flat blocks ++ new) (inc + written) rows
    pub longer : length blocks ≤ length after
    pub all : done ≡ true → rows ≡ drop written source
    pub room : done ≡ true → inc + length source ≤ length after * size
    pub short : done ≡ false → (n : ℕ) × (alloc n ≡ false)

  record Grown (blocks : List (List A)) (idx : ℕ) : Type ℓ where
    pub grown : List (List A)
    pub made : grow alloc blank size idx blocks ≡ some grown
    pub sizes : every (has_size size) grown ≡ true
    pub new : List A
    pub same : flat grown ≡ flat blocks ++ new
    pub longer : length blocks ≤ length grown
    pub inside : idx < length grown

  one_more :
      (blocks : List (List A))
      → every (has_size size) blocks ≡ true
      → every (has_size size) (blocks ++ replicate size blank ∷ []) ≡ true
  unfolding every has_size
  one_more blocks h =
      every-append (has_size size) blocks (replicate size blank ∷ []) h
        (ground (arith, length-replicate size blank))

  grow-Grown :
      (blocks : List (List A)) (idx : ℕ)
      → every (has_size size) blocks ≡ true
      → idx ≤ length blocks
      → ((grow alloc blank size idx blocks ≡ none) × (alloc (length blocks) ≡ false))
        ⊎ Grown blocks idx
  unfolding grow
  grow-Grown blocks idx sizes le = elim (Bool-cases (leb (length blocks) idx)) [
    | inr inside ↦ inr (record {
      grown = blocks;
      made = rw inside refl;
      sizes = sizes;
      new = [];
      same = sym (append-nil (flat blocks));
      longer = omega arith;
      inside = ground (arith, inside);
    })
    | inl past ↦ elim (Bool-cases (alloc (length blocks))) [
      | inr full ↦ inl (rw (past, full) refl, full)
      | inl room ↦
          let more = length-append blocks (replicate size blank ∷ []) in
          inr (record {
            grown = blocks ++ replicate size blank ∷ [];
            made = rw (past, room) refl;
            sizes = one_more blocks sizes;
            new = flat (replicate size blank ∷ []);
            same = flat-append blocks (replicate size blank ∷ []);
            longer = omega (arith, more);
            inside = omega (arith, more, le);
          })
    ]
  ]

  enough :
      (written w q p : ℕ) (blocks : List (List A)) (g : Grown blocks q) (chunk : List A)
      → length chunk ≡ w
      → q * size + p ≡ inc + written
      → p + w ≤ size
      → inc + written + length chunk ≤ length (flat blocks ++ g.new)
  enough written w q p blocks g chunk wide place fits =
      let last : suc q * size ≤ length g.grown * size = mul-le-mul_right size g.inside in
      let all = length-flat size g.grown g.sizes in
      omega (arith, last, all, ap length g.same, wide, place)

  inside-write_block :
      (grown : List (List A)) (q : ℕ) (f : List A → List A)
      → q < length grown
      → write_block grown q f ≡ some (update_block grown q f)
  unfolding write_block
  inside-write_block grown q f lt =
      let here : leb (length grown) q ≡ false = ground (arith, lt) in rw here refl

  -- one pass, and then the others
  pass :
      (written w q p : ℕ) (blocks : List (List A)) (out : Option (Bool × List (List A)))
      → q * size + p ≡ inc + written
      → p + w ≤ size
      → written + w ≤ length source
      → (g : Grown blocks q)
      → Written (written + w) (update_block g.grown q (copy_rows (some source) written w p)) out
      → Written written blocks out
  unfolding copy_rows
  pass written w q p blocks out place fits inside g rest =
      let chunk : List A = take w (drop written source) in
      let wide : length chunk ≡ w =
        omega (arith, length-take w (drop written source), length-drop written source) in
      let wrote : flat (update_block g.grown q (copy_rows (some source) written w p))
          ≡ overwrite (flat blocks ++ g.new) (inc + written) chunk =
        flat-write size g.grown q p chunk g.sizes g.inside (omega arith)
        ∙ ap (λ n. overwrite (flat g.grown) n chunk) place
        ∙ ap (λ f. overwrite f (inc + written) chunk) g.same in
      let all = flat blocks ++ (g.new ++ rest.new) in
      let same : flat rest.after ≡ overwrite all (inc + written) (chunk ++ rest.rows) =
        rest.same
        ∙ ap (λ f. overwrite (f ++ rest.new) (inc + (written + w)) rest.rows) wrote
        ∙ ap (λ f. overwrite f (inc + (written + w)) rest.rows)
            (sym (
              overwrite-append_inside (flat blocks ++ g.new) rest.new (inc + written) chunk
                (enough written w q p blocks g chunk wide place fits)))
        ∙ ap (λ f. overwrite (overwrite f (inc + written) chunk) (inc + (written + w)) rest.rows)
            (append_assoc (flat blocks) g.new rest.new)
        ∙ ap (λ n. overwrite (overwrite all (inc + written) chunk) n rest.rows)
            (omega (arith, wide))
        ∙ overwrite-overwrite all (inc + written) chunk rest.rows in
      let more = length-update_block g.grown q (copy_rows (some source) written w p) in
      let first = g.longer in
      let others = rest.longer in
      record {
        done = rest.done;
        after = rest.after;
        ends = rest.ends;
        sizes = rest.sizes;
        new = g.new ++ rest.new;
        rows = chunk ++ rest.rows;
        same = same;
        longer = omega (arith, more, first, others);
        all = λ e.
            ap (λ xs. chunk ++ xs) (rest.all e ∙ sym (drop-drop source written w))
            ∙ take-append-drop w (drop written source);
        room = rest.room;
        short = rest.short;
      }

  unchanged :
      (written : ℕ) (blocks : List (List A)) (done : Bool)
      → every (has_size size) blocks ≡ true
      → inc + written ≤ length blocks * size
      → (done ≡ true → length source ≤ written)
      → (done ≡ false → (n : ℕ) × (alloc n ≡ false))
      → Written written blocks (some (done, blocks))
  unchanged written blocks done sizes inside over short = record {
    done = done;
    after = blocks;
    ends = refl;
    sizes = sizes;
    new = [];
    rows = [];
    same =
        sym (append-nil (flat blocks))
        ∙ sym (overwrite-nothing (flat blocks ++ []) (inc + written));
    longer = omega arith;
    all = λ e. sym (drop-past source written (over e));
    room = λ e. let le = over e in omega (arith, le, inside);
    short = short;
  }

  rewritten :
      (grown : List (List A)) (q written w p : ℕ)
      → every (has_size size) grown ≡ true
      → every (has_size size) (update_block grown q (copy_rows (some source) written w p)) ≡ true
  unfolding copy_rows
  rewritten grown q written w p h =
      update_block-sizes size grown q p (take w (drop written source)) h

  block_below : (q p n : ℕ) → 0 < size → q * size + p ≤ n * size → q ≤ n
  block_below q p n positive le = elim (Bool-cases (leb q n)) [
    | inl e ↦ ground (arith, e)
    | inr e ↦
        let past : suc n * size ≤ q * size = mul-le-mul_right size (ground (arith, e)) in
        absurd (omega (arith, past, le, positive))
  ]

  pub add_loop-Written :
      (fuel written : ℕ) (blocks : List (List A))
      → 0 < size
      → length source ≤ fuel + written
      → every (has_size size) blocks ≡ true
      → inc + written ≤ length blocks * size
      → Written written blocks
          (add_loop alloc blank size inc (length source) (some source) fuel written blocks)
  unfolding add_loop
  add_loop-Written zero written blocks positive fuelled sizes inside =
      let over : ltb written (length source) ≡ false = ground (arith, fuelled) in
      rw over (
        unchanged written blocks true sizes inside (λ e. ground (arith, fuelled))
          (λ e. absurd (let never = e in cc)))
  add_loop-Written (suc fuel) written blocks positive fuelled sizes inside =
      elim (Bool-cases (ltb written (length source))) [
        | inr over ↦ rw over (
            unchanged written blocks true sizes inside (λ e. ground (arith, over))
              (λ e. absurd (let never = e in cc)))
        | inl more ↦
            let q = (inc + written) / size in
            let p = (inc + written) % size in
            let w = min (size - p) (length source - written) in
            let place : q * size + p ≡ inc + written = div-add-mod' (inc + written) size in
            let low : p < size = mod-lt (inc + written) positive in
            let left : written < length source = ground (arith, more) in
            let below = block_below q p (length blocks) positive (omega (arith, place, inside)) in
            elim (grow-Grown blocks q sizes below) [
              | inl (failed, full) ↦
                  rw (more, failed)
                    (unchanged written blocks false sizes inside (λ e. absurd (let never = e in cc))
                      (λ e. (length blocks, full)))
              | inr g ↦
                  let last : suc q * size ≤ length g.grown * size =
                    mul-le-mul_right size g.inside in
                  let same = length-update_block g.grown q (copy_rows (some source) written w p) in
                  let rest =
                    add_loop-Written fuel (written + w)
                      (update_block g.grown q (copy_rows (some source) written w p)) positive
                      (omega (arith, fuelled, low, left)) (rewritten g.grown q written w p g.sizes)
                      (rw same (omega (arith, last, place, low, left))) in
                  rw
                    (
                      more,
                      g.made,
                      inside-write_block g.grown q (copy_rows (some source) written w p) g.inside,
                    )
                    (pass written w q p blocks _ place (omega (arith, low)) (omega (arith, left)) g
                      rest)
            ]
      ]
