-- ===== src/Dataset/Batch.antt =====
-- `AddBatch` of AnnService/inc/Core/Common/Dataset.h against the rows in order.
use mathlib.Core.List.{append_assoc}
use native.Mathlib.Nat.{mul-le-mul_right}
use sptag.Base.{
  ℕ, ◌+◌, ◌*◌, ◌≤◌, ◌<◌, ◌≡◌, refl, ap, sym, ◌∙◌, ◌⊎◌, inl, inr, Bool, true, false, List, ◌++◌,
  Option, some, length, take, ltb, ◌==◌, if◌then◌else◌, arith, Bool-cases,
}
use sptag.Labels.{ErrorCode, success, memory_over_flow}
use sptag.Dataset.{Dataset, r, block_size, overwrite, add_loop, add_batch}
use sptag.Dataset.Overwrite.{
  take-overwrite_before, take-overwrite, take-append_inside, length-overwrite,
}
use sptag.Dataset.Address.{flat, length-flat, IsValid, view, block_size-positive}
use sptag.Dataset.Append.{Written, add_loop-Written}

module _ {ℓ} {A : Type ℓ} (old new after rows : List A) (inc : ℕ) where
  kept_rows :
      after ≡ overwrite (old ++ new) (inc + 0) rows
      → inc ≤ length old
      → take inc after ≡ take inc old
  kept_rows e le =
      ap (take inc) e
      ∙ take-overwrite_before (old ++ new) inc (inc + 0) rows (omega arith)
      ∙ take-append_inside old new inc le

  more_rows :
      after ≡ overwrite (old ++ new) (inc + 0) rows
      → inc ≤ length old
      → inc + length rows ≤ length after
      → take (inc + length rows) after ≡ take inc old ++ rows
  more_rows e le fits =
      let wide = ap length e ∙ length-overwrite (old ++ new) (inc + 0) rows in
      let at_end : after ≡ overwrite (old ++ new) inc rows =
        e ∙ ap (λ n. overwrite (old ++ new) n rows) (omega arith) in
      ap (take (inc + length rows)) at_end
      ∙ take-overwrite (old ++ new) inc rows (omega (arith, wide, fits))
      ∙ ap (λ xs. xs ++ rows) (take-append_inside old new inc le)

module _ {ℓ} {A : Type ℓ} (alloc : ℕ → Bool) (blank : A) where
  -- what `AddBatch` does with rows that it is given
  pub record Added (d : Dataset A) (source : List A) (out : Option (ErrorCode × Dataset A))
      : Type ℓ where
    pub code : ErrorCode
    pub after : Dataset A
    pub ends : out ≡ some (code, after)
    pub valid : IsValid after
    pub rows :
        ((code ≡ success)
          × (view after ≡ view d ++ source)
          × (r after ≡ r d + length source)
          × (r after ≤ d.max_rows))
        ⊎ ((code ≡ memory_over_flow)
            × (view after ≡ view d)
            × (r after ≡ r d)
            × ((d.max_rows < r d + length source) ⊎ ((n : ℕ) × (alloc n ≡ false))))

  written :
      (d : Dataset A) (source : List A)
      → IsValid d
      → r d + length source ≤ d.max_rows
      → (w : Written alloc blank (block_size d) d.inc_rows source 0 d.inc_blocks (
          add_loop alloc blank
            (block_size d)
            d.inc_rows
            (length source)
            (some source)
            (length source)
            0
            d.inc_blocks))
      → Added d source (
          some (
            if w.done
            then (success, record d { inc_blocks = w.after; inc_rows = d.inc_rows + length source })
            else (memory_over_flow, record d { inc_blocks = w.after })))
  unfolding view r block_size
  written d source v fits w =
      let before : d.inc_rows ≤ length (flat d.inc_blocks) =
        let inside = v.inside in
        omega (arith, inside, length-flat (block_size d) d.inc_blocks v.sizes) in
      let all = length-flat (block_size d) w.after w.sizes in
      elim (Bool-cases w.done) [
        | inl done ↦ rw done (record {
          code = success;
          after = record d { inc_blocks = w.after; inc_rows = d.inc_rows + length source };
          ends = refl;
          valid = record { owned = v.owned; sizes = w.sizes; inside = w.room done };
          rows = inl (
            refl,
            (let same : flat w.after
                    ≡ overwrite (flat d.inc_blocks ++ w.new) (d.inc_rows + 0) source =
                  w.same
                  ∙ ap (overwrite (flat d.inc_blocks ++ w.new) (d.inc_rows + 0)) (w.all done) in
                let room = w.room done in
                ap (λ xs. take d.rows d.data_ ++ xs)
                  (more_rows (flat d.inc_blocks) w.new (flat w.after) source d.inc_rows same before
                    (omega (arith, room, all)))
                ∙ sym (
                    append_assoc (take d.rows d.data_) (take d.inc_rows (flat d.inc_blocks))
                      source)),
            omega arith,
            omega (arith, fits),
          );
        })
        | inr failed ↦ rw failed (record {
          code = memory_over_flow;
          after = record d { inc_blocks = w.after };
          ends = refl;
          valid = record {
            owned = v.owned;
            sizes = w.sizes;
            inside =
                (let longer : length d.inc_blocks * block_size d ≤ length w.after * block_size d =
                    mul-le-mul_right (block_size d) w.longer in
                  let inside = v.inside in omega (arith, longer, inside));
          };
          rows = inr (
            refl,
            ap (λ xs. take d.rows d.data_ ++ xs)
                (kept_rows (flat d.inc_blocks) w.new (flat w.after) w.rows d.inc_rows w.same
                  before),
            refl,
            inr (w.short failed),
          );
        })
      ]

  -- AddBatch of rows on a well-formed dataset of all the columns ends: with Success the rows in
  -- order are those before and then the new ones, within the capacity; with MemoryOverFlow they
  -- are unchanged, and the rows exceed the capacity or a block could not be allocated. The
  -- dataset stays well-formed.
  pub add_batch-Added :
      (d : Dataset A) (source : List A)
      → IsValid d
      → d.col_start ≡ 0
      → Added d source (add_batch alloc blank d (length source) (some source))
  unfolding add_batch
  add_batch-Added d source v start =
      let whole : (d.col_start == 0) ≡ true = ground (arith, start) in
      elim (Bool-cases (ltb d.max_rows (r d + length source))) [
        | inl over ↦
            rw (whole, over)
              (record {
                code = memory_over_flow;
                after = d;
                ends = refl;
                valid = v;
                rows = inr (refl, refl, refl, inl (ground (arith, over)));
              })
        | inr fits ↦
            let inside = v.inside in
            let w =
              add_loop-Written alloc blank (block_size d) d.inc_rows source (length source) 0
                d.inc_blocks (block_size-positive d) (omega arith) v.sizes
                (omega (arith, inside)) in
            rw (whole, fits, w.ends) (written d source v (ground (arith, fits)) w)
      ]
