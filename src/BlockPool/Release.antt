-- ===== src/BlockPool/Release.antt =====
-- ReleaseBlocks of AnnService/src/Core/SPANN/ExtraFileController.cpp.
use mathlib.Core.List.{append_assoc, append-nil}
use sptag.Base.{
  ℕ, ◌++◌, ◌+◌, ◌^◌, ◌≤◌, ◌<◌, ◌≡◌, refl, sym, ◌∙◌, true, false, List, [], ◌∷◌, Option, some, ◌==◌,
  arith, inl, inr, Bool-cases,
}
use sptag.Base.Int.{pos}
use sptag.Labels.{count, one_if}
use sptag.Labels.LabelSet.{LabelSet, insert}
use sptag.BlockPool.{BlockController, push_released, release_blocks}
use sptag.BlockPool.Pool.{insert-Freed}
use sptag.BlockPool.Valid.{IsValid, lose-IsValid}

-- blocks are given back
pub record GivenBack (c : BlockController) (held : ℕ → ℕ) (d : BlockController) : Type 0 where
  pub valid : IsValid d held
  pub flag : d.disable_checkpoint ≡ c.disable_checkpoint
  pub total : d.total_allocated_blocks ≡ c.total_allocated_blocks
  pub waiting : c.disable_checkpoint ≡ false → d.block_addresses ≡ c.block_addresses

-- where the blocks stand afterwards
pub record Stand (bs : List ℕ) (c d : BlockController) : Type 0 where
  pub at_once :
      c.disable_checkpoint ≡ true
      → (d.block_addresses ≡ c.block_addresses ++ bs)
        × (d.block_addresses_reserve ≡ c.block_addresses_reserve)
  pub later :
      c.disable_checkpoint ≡ false
      → (d.block_addresses ≡ c.block_addresses)
        × (d.block_addresses_reserve ≡ c.block_addresses_reserve ++ bs)

push_released-GivenBack :
    (b : ℕ) (c : BlockController) (held : ℕ → ℕ)
    → IsValid c (λ x. held x + one_if (b == x))
    → b < c.total_allocated_blocks
    → (s : LabelSet) × (insert c.available (pos b) ≡ some (true, s))
      × GivenBack c held (push_released (record c { available = s }) b)
unfolding push_released
push_released-GivenBack b c held v inside =
    let total = c.total_allocated_blocks in
    let freed =
      insert-Freed c.block_addresses c.block_addresses_reserve c.available total total b v.pool
        inside in
    let shape = freed.shape in
    let room : c.max_blocks ≤ freed.after.data_.max_rows = rw shape.capacity v.room in
    let few : freed.after.data_.max_rows < 2 ^ 31 = rw shape.capacity v.few in
    (
      freed.after,
      freed.ran,
      elim (Bool-cases c.disable_checkpoint) [
        | inl at_once ↦ simp at_once (record {
          valid = record { pool = freed.queued; room = room; few = few };
          flag = sym at_once;
          total = refl;
          waiting = λ e. absurd (ground (arith, e, at_once));
        })
        | inr later ↦ simp later (record {
          valid = record { pool = freed.reserved; room = room; few = few };
          flag = sym later;
          total = refl;
          waiting = λ _. refl;
        })
      ],
    )

push_released-Stand :
    (b : ℕ) (bs : List ℕ) (c : BlockController) (s : LabelSet) {d : BlockController}
    → Stand bs (push_released (record c { available = s }) b) d
    → Stand (b ∷ bs) c d
unfolding push_released
push_released-Stand b bs c s {d} rest = elim (Bool-cases c.disable_checkpoint) [
  | inl now ↦
      let stand : Stand bs
          (record c {
            available = s;
            block_addresses = c.block_addresses ++ b ∷ [];
            disable_checkpoint = true;
          })
          d =
        simp now at rest in
      record {
        at_once = λ e.
            let (queue, reserve) = stand.at_once refl in
            (queue ∙ append_assoc c.block_addresses (b ∷ []) bs, reserve);
        later = λ e. absurd (ground (arith, e, now));
      }
  | inr later ↦
      let stand : Stand bs
          (record c {
            available = s;
            block_addresses_reserve = c.block_addresses_reserve ++ b ∷ [];
            disable_checkpoint = false;
          })
          d =
        simp later at rest in
      record {
        at_once = λ e. absurd (ground (arith, e, later));
        later = λ e.
            let (queue, reserve) = stand.later refl in
            (queue, reserve ∙ append_assoc c.block_addresses_reserve (b ∷ []) bs);
      }
]

pub record Released (bs : List ℕ) (c : BlockController) (held : ℕ → ℕ)
    (out : Option BlockController) : Type 0 where
  pub after : BlockController
  pub ran : out ≡ some after
  pub back : GivenBack c held after
  pub stand : Stand bs c after

-- ReleaseBlocks of blocks that are in use on a valid pool returns with a valid pool in which they
-- are free, in their order: at the end of the queue, the reserve being as it was, or where
-- checkpoints are on at the end of the reserve, the queue being as it was.
pub release_blocks-Released :
    (bs : List ℕ) (c : BlockController) (held : ℕ → ℕ)
    → IsValid c (λ x. held x + count x bs)
    → Released bs c held (release_blocks bs c)
unfolding release_blocks count
release_blocks-Released [] c held v = record {
  after = c;
  ran = refl;
  back = record {
    valid = lose-IsValid v (λ b. omega arith);
    flag = refl;
    total = refl;
    waiting = λ _. refl;
  };
  stand = record {
    at_once = λ _. (sym (append-nil c.block_addresses), refl);
    later = λ _. (refl, sym (append-nil c.block_addresses_reserve));
  };
}
release_blocks-Released (b ∷ bs) c held v =
    let p = v.pool in
    let inside : b < c.total_allocated_blocks = ground (arith, p.once b) in
    let (s, ran, one) =
      push_released-GivenBack b c (λ x. held x + count x bs) (lose-IsValid v (λ x. omega arith))
        inside in
    let others =
      release_blocks-Released bs (push_released (record c { available = s }) b) held one.valid in
    let back = others.back in
    rw ran (record {
      after = others.after;
      ran = others.ran;
      back = record {
        valid = back.valid;
        flag = back.flag ∙ one.flag;
        total = back.total ∙ one.total;
        waiting = λ e. back.waiting (one.flag ∙ e) ∙ one.waiting e;
      };
      stand = push_released-Stand b bs c s others.stand;
    })
