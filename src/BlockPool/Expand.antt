-- ===== src/BlockPool/Expand.antt =====
-- ExpandFile and GetBlocks of AnnService/src/Core/SPANN/ExtraFileController.cpp.
use sptag.Base.{
  ℕ, zero, suc, ◌+◌, ◌-◌, ◌*◌, ◌≤◌, ◌<◌, max, min, ◌≡◌, refl, ap, sym, ◌∙◌, Bool, true, false, ◌&&◌,
  List, [], ◌∷◌, ◌++◌, Option, some, length, length-append, leb, ◌==◌, arith, inl, inr, Bool-cases,
  subst,
}
use sptag.Labels.{count, one_if}
use sptag.Labels.LabelSet.{LabelSet, add_rows}
use sptag.Labels.LabelSet.Members.{add_rows-keeps, add_rows-room}
use sptag.BlockPool.{
  Device, BlockController, page_size, needs_expansion, add_blocks, expand_file, get_blocks,
}
use sptag.BlockPool.Pool.{IsPool, insert-Freed, count-snoc}
use sptag.BlockPool.Valid.{
  PoolOf, IsValid, EnoughBlocks, SameRest, same-SameRest, chain-SameRest, queue-SameRest,
}
use sptag.BlockPool.Take.{Got, untaken-Got, take_blocks-Got}

-- the file has a block more
raise :
    {queue reserve : List ℕ} {s : LabelSet} {a size : ℕ} {held : ℕ → ℕ}
    → IsPool queue reserve s a size held
    → IsPool queue reserve s (suc a) size (λ x. held x + one_if (a == x))
raise p = record {
  once = λ x. ground (arith, p.once x);
  marked = p.marked;
  labels = p.labels;
  cells = p.cells;
}

pub record Grown (a n size : ℕ) (held : ℕ → ℕ) (c : BlockController) (out : Option BlockController)
    : Type 0 where
  pub after : BlockController
  pub ran : out ≡ some after
  pub rest : SameRest c after
  pub pool : PoolOf after (a + n) size held
  pub total : after.total_allocated_blocks ≡ c.total_allocated_blocks
  pub longer : length after.block_addresses ≡ length c.block_addresses + n
  pub older : (b : ℕ) → b < a → count b after.block_addresses ≡ count b c.block_addresses

pub add_blocks-Grown :
    (n a size : ℕ) (c : BlockController) (held : ℕ → ℕ)
    → PoolOf c a size held
    → a + n ≤ size
    → Grown a n size held c (add_blocks n a c)
unfolding add_blocks
add_blocks-Grown zero a size c held p le = record {
  after = c;
  ran = refl;
  rest = same-SameRest c;
  pool = subst (λ t. PoolOf c t size held) (omega arith) p;
  total = refl;
  longer = omega arith;
  older = λ b _. refl;
}
add_blocks-Grown (suc n) a size c held p le =
    let freed =
      insert-Freed c.block_addresses c.block_addresses_reserve c.available (suc a) size a (raise p)
        (omega (arith, le)) in
    let grown =
      add_blocks-Grown n (suc a) size
        (record c { block_addresses = c.block_addresses ++ a ∷ []; available = freed.after }) held
        freed.queued (omega (arith, le)) in
    rw freed.ran (record {
      after = grown.after;
      ran = grown.ran;
      rest =
          chain-SameRest
            (queue-SameRest c (c.block_addresses ++ a ∷ []) freed.after freed.shape.capacity)
            grown.rest;
      pool = subst (λ t. PoolOf grown.after t size held) (omega arith) grown.pool;
      total = grown.total;
      longer = omega (arith, grown.longer, length-append c.block_addresses (a ∷ []));
      older = λ b low.
          grown.older b (omega (arith, low))
          ∙ count-snoc b a c.block_addresses
          ∙ ground (arith, low);
    })

record Expanded (device : Device) (c : BlockController) (n : ℕ) (held : ℕ → ℕ)
    (out : Option (Bool × BlockController)) : Type 0 where
  pub done : Bool
  pub after : BlockController
  pub ran : out ≡ some (done, after)
  pub rest : SameRest c after
  pub total : c.total_allocated_blocks ≤ after.total_allocated_blocks
  pub pool : PoolOf after after.total_allocated_blocks after.total_allocated_blocks held
  pub grows : ((m : ℕ) → device.expands m ≡ true) → done ≡ true
  pub longer : done ≡ true → length after.block_addresses ≡ length c.block_addresses + n
  pub older :
      (b : ℕ)
      → b < c.total_allocated_blocks
      → count b after.block_addresses ≡ count b c.block_addresses

expand_file-Expanded :
    (device : Device) (c : BlockController) (held : ℕ → ℕ) (n : ℕ)
    → IsValid c held
    → c.total_allocated_blocks + n ≤ c.max_blocks
    → Expanded device c n held (expand_file device c n)
unfolding expand_file
expand_file-Expanded device c held n v le =
    let total = c.total_allocated_blocks in
    let allowed = min n (c.max_blocks - total) in
    let all : allowed ≡ n = omega (arith, le) in
    elim (Bool-cases (device.expands (allowed * page_size))) [
      | inr refused ↦
          rw (expand_file, refused)
            (record {
              done = false;
              after = c;
              ran = refl;
              rest = same-SameRest c;
              total = omega arith;
              pool = v.pool;
              grows = λ all. absurd (let never = sym refused ∙ all (allowed * page_size) in cc);
              longer = λ e. absurd (let never = e in cc);
              older = λ b _. refl;
            })
      | inl longer ↦
          let room = v.room in
          let p = v.pool in
          let cells = p.cells in
          let (labels, members) = add_rows-keeps c.available allowed p.labels v.few in
          let (size, capacity) =
            add_rows-room c.available allowed (omega (arith, cells, all, le, room)) in
          let wider : PoolOf (record c { available = (add_rows c.available allowed).1 }) total
              (total + allowed) held =
            record {
              once = p.once;
              marked = λ b. members b ∙ p.marked b;
              labels = labels;
              cells = size ∙ ap (λ m. m + allowed) cells;
            } in
          let grown =
            add_blocks-Grown allowed total (total + allowed)
              (record c { available = (add_rows c.available allowed).1 }) held wider
              (omega arith) in
          let rest = grown.rest in
          rw (expand_file, longer, grown.ran)
            (record {
              done = true;
              after = record grown.after { total_allocated_blocks = total + allowed };
              ran = refl;
              rest =
                  chain-SameRest
                    (queue-SameRest c c.block_addresses (add_rows c.available allowed).1 capacity)
                    (record {
                      limit = rest.limit;
                      flag = rest.flag;
                      capacity = rest.capacity;
                      reserve = rest.reserve;
                    });
              total = omega arith;
              pool = grown.pool;
              grows = λ _. refl;
              longer = λ _. omega (arith, grown.longer, all);
              older = grown.older;
            })
    ]

-- what is taken after the file has grown, or after it has not
wider-Got :
    {device : Device} {n grow_by : ℕ} {c : BlockController} {held : ℕ → ℕ} {Ready : Type 0}
    {expanded : Option (Bool × BlockController)} {out : Option (Bool × List ℕ × BlockController)}
    → (wider : Expanded device c grow_by held expanded) → Got n wider.after held Ready out
    → Got n c held Ready out
wider-Got wider got =
    let grown = wider.total in
    let total = got.total in
    record {
      done = got.done;
      blocks = got.blocks;
      after = got.after;
      ran = got.ran;
      rest = chain-SameRest wider.rest got.rest;
      total = omega (arith, total, grown);
      pool = got.pool;
      all = got.all;
      ready = got.ready;
      older = λ b low. omega (arith, got.older b (omega (arith, low, grown)), wider.older b low);
    }

left-EnoughBlocks :
    (device : Device) (c : BlockController) (n : ℕ)
    → (needs_expansion device c n
        && leb (c.total_allocated_blocks + max c.growth_blocks n) c.max_blocks)
      ≡ false
    → EnoughBlocks device c n
    → n ≤ length c.block_addresses
unfolding needs_expansion
left-EnoughBlocks device c n h enough = let room = enough.room in ground (arith, h, room)

-- GetBlocks on a valid pool returns, with the blocks asked for if the file can grow and there are
-- enough or room for them: the blocks it takes were free and are so no longer, every block stays
-- in at most one place, free or in use, and the pool valid.
pub get_blocks-Got :
    (device : Device) (c : BlockController) (held : ℕ → ℕ) (n : ℕ)
    → IsValid c held
    → Got n c held (EnoughBlocks device c n) (get_blocks device c n)
unfolding get_blocks count
get_blocks-Got device c held n v =
    let grow_by = max c.growth_blocks n in
    elim (Bool-cases
      (needs_expansion device c n && leb (c.total_allocated_blocks + grow_by) c.max_blocks)) [
        | inr no_more ↦
            rw no_more (take_blocks-Got n c held v.pool (left-EnoughBlocks device c n no_more))
        | inl more ↦
            let wider = expand_file-Expanded device c held grow_by v (ground (arith, more)) in
            elim (Bool-cases wider.done) [
              | inr failed ↦
                  rw (more, wider.ran, failed)
                    (wider-Got wider (
                      untaken-Got false n wider.after held wider.pool
                        (λ e. absurd (let never = e in cc))
                        (λ h. sym failed ∙ wider.grows h.expands)))
              | inl done ↦
                  rw (more, wider.ran, done)
                    (wider-Got wider (
                      take_blocks-Got n wider.after held wider.pool
                        (λ h. omega (arith, wider.longer done))))
            ]
      ]
