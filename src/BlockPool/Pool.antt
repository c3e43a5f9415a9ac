-- ===== src/BlockPool/Pool.antt =====
-- A pool of free blocks, for FileIO::BlockController of
-- AnnService/src/Core/SPANN/ExtraFileController.cpp.
use sptag.Base.{
  ℕ, ◌+◌, ◌≤◌, ◌<◌, ◌≡◌, refl, ◌∙◌, true, false, List, [], ◌∷◌, ◌++◌, some, length, ltb, ◌==◌,
  arith,
}
use sptag.Base.Int.{pos}
use sptag.Labels.{count, one_if}
use sptag.Labels.LabelSet.{LabelSet, insert, reset}
use sptag.Labels.LabelSet.Members
use sptag.Labels.LabelSet.Members.{
  member, insert-adds, reset-removes, SameShape, insert-SameShape, reset-SameShape,
}

-- Blocks below `top` are free once, in the queue or in the reserve, or held once, or lost; the label
-- set of `size` keys marks the free ones.
pub record IsPool (queue reserve : List ℕ) (s : LabelSet) (top size : ℕ) (held : ℕ → ℕ)
    : Type 0 where
  pub once : (b : ℕ) → count b queue + count b reserve + held b ≤ one_if (ltb b top)
  pub marked : (b : ℕ) → member s b ≡ ltb 0 (count b queue + count b reserve)
  pub labels : Members.IsValid s
  pub cells : length s.data_.cells ≡ size

pub count-snoc : (v x : ℕ) (xs : List ℕ) → count v (xs ++ x ∷ []) ≡ count v xs + one_if (x == v)
unfolding count
count-snoc v x [] = omega arith
count-snoc v x (y ∷ xs) = omega (arith, count-snoc v x xs)

module _ (queue reserve : List ℕ) (s : LabelSet) (top size : ℕ) where
  pub lose-IsPool :
      {held held' : ℕ → ℕ}
      → IsPool queue reserve s top size held
      → ((b : ℕ) → held' b ≤ held b)
      → IsPool queue reserve s top size held'
  lose-IsPool p le = record {
    once = λ b. omega (arith, p.once b, le b);
    marked = p.marked;
    labels = p.labels;
    cells = p.cells;
  }

  -- a block becomes free
  pub record Freed (b : ℕ) (held : ℕ → ℕ) : Type 0 where
    pub after : LabelSet
    pub ran : insert s (pos b) ≡ some (true, after)
    pub shape : SameShape s after
    pub queued : IsPool (queue ++ b ∷ []) reserve after top size held
    pub reserved : IsPool queue (reserve ++ b ∷ []) after top size held

  pub insert-Freed :
      (b : ℕ) {held : ℕ → ℕ}
      → IsPool queue reserve s top size (λ x. held x + one_if (b == x))
      → b < size
      → Freed b held
  insert-Freed b {held} p inside =
      let low : b < length s.data_.cells = omega (arith, p.cells, inside) in
      let (t, (ran, (valid, members))) = insert-adds s b p.labels low in
      let new : member s b ≡ false = ground (arith, p.marked b, p.once b) in
      let run : insert s (pos b) ≡ some (true, t) = ran ∙ rw new refl in
      let shape = insert-SameShape s t b true low run in
      let cells : length t.data_.cells ≡ size = shape.cells ∙ p.cells in
      record {
        after = t;
        ran = run;
        shape = shape;
        queued = record {
          once = λ x. omega (arith, count-snoc x b queue, p.once x);
          marked = λ x. ground (arith, members x, p.marked x, count-snoc x b queue);
          labels = valid;
          cells = cells;
        };
        reserved = record {
          once = λ x. omega (arith, count-snoc x b reserve, p.once x);
          marked = λ x. ground (arith, members x, p.marked x, count-snoc x b reserve);
          labels = valid;
          cells = cells;
        };
      }

module _ (queue reserve : List ℕ) (s : LabelSet) (top size : ℕ) where
  -- the first block of the queue is taken
  pub record Taken (b : ℕ) (held : ℕ → ℕ) : Type 0 where
    pub after : LabelSet
    pub ran : reset s (pos b) ≡ some (true, after)
    pub shape : SameShape s after
    pub pool : IsPool queue reserve after top size (λ x. held x + one_if (b == x))

  pub reset-Taken :
      (b : ℕ) {held : ℕ → ℕ} → IsPool (b ∷ queue) reserve s top size held → b < size → Taken b held
  unfolding count
  reset-Taken b {held} p inside =
      let low : b < length s.data_.cells = omega (arith, p.cells, inside) in
      let (t, (ran, (valid, members))) = reset-removes s b p.labels low in
      let free : member s b ≡ true = ground (arith, p.marked b) in
      let run : reset s (pos b) ≡ some (true, t) = ran ∙ rw free refl in
      let shape = reset-SameShape s t b true low run in
      record {
        after = t;
        ran = run;
        shape = shape;
        pool = record {
          once = λ x. omega (arith, p.once x);
          marked = λ x. ground (arith, members x, p.marked x, p.once x);
          labels = valid;
          cells = shape.cells ∙ p.cells;
        };
      }
