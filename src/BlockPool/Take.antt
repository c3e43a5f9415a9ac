-- ===== src/BlockPool/Take.antt =====
-- The loop of GetBlocks of AnnService/src/Core/SPANN/ExtraFileController.cpp.
use sptag.Base.{
  ℕ, zero, suc, ◌+◌, ◌≤◌, ◌<◌, ◌≡◌, refl, ap, ◌∙◌, Bool, true, false, List, [], ◌∷◌, Option, some,
  none, length, ◌==◌, arith, inl, inr, subst, Option-cases,
}
use sptag.Labels.{count, one_if}
use sptag.Labels.LabelSet.{LabelSet}
use sptag.BlockPool.{BlockController, take_blocks, try_pop}
use sptag.BlockPool.Pool.{IsPool, reset-Taken, lose-IsPool}
use sptag.BlockPool.Valid.{PoolOf, IsValid, SameRest, same-SameRest, chain-SameRest, queue-SameRest}

try_pop-some {ℓ} :
    {A : Type ℓ} (xs : List A) (x : A) (rest : List A) → try_pop xs ≡ some (x, rest) → xs ≡ x ∷ rest
unfolding try_pop
try_pop-some [] x rest h = absurd (let never = h in cc)
try_pop-some (y ∷ xs) x rest h =
    let same : y ≡ x = cc in let tail : xs ≡ rest = cc in ap (◌∷◌ y) tail ∙ ap (λ z. z ∷ rest) same

try_pop-none {ℓ} : {A : Type ℓ} (xs : List A) → try_pop xs ≡ none → length xs ≡ 0
unfolding try_pop
try_pop-none [] h = refl
try_pop-none (y ∷ xs) h = absurd (let never = h in cc)

pub record Got (n : ℕ) (c : BlockController) (held : ℕ → ℕ) (Ready : Type 0)
    (out : Option (Bool × List ℕ × BlockController)) : Type 0 where
  pub done : Bool
  pub blocks : List ℕ
  pub after : BlockController
  pub ran : out ≡ some (done, blocks, after)
  pub rest : SameRest c after
  pub total : c.total_allocated_blocks ≤ after.total_allocated_blocks
  pub pool :
      PoolOf after after.total_allocated_blocks after.total_allocated_blocks
        (λ b. held b + count b blocks)
  pub all : done ≡ true → length blocks ≡ n
  pub ready : Ready → done ≡ true
  pub older :
      (b : ℕ)
      → b < c.total_allocated_blocks
      → count b blocks + count b after.block_addresses ≤ count b c.block_addresses

below :
    (queue : List ℕ) (b : ℕ) (held : ℕ → ℕ) {reserve : List ℕ} {s : LabelSet} {top size : ℕ}
    → IsPool (b ∷ queue) reserve s top size held
    → b < top
unfolding count
below queue b held p = ground (arith, p.once b)

-- no block is taken
pub untaken-Got :
    (done : Bool) (n : ℕ) (c : BlockController) (held : ℕ → ℕ) {Ready : Type 0}
    → PoolOf c c.total_allocated_blocks c.total_allocated_blocks held
    → (done ≡ true → 0 ≡ n)
    → (Ready → done ≡ true)
    → Got n c held Ready (some (done, [], c))
unfolding count
untaken-Got done n c held p all ready = record {
  done = done;
  blocks = [];
  after = c;
  ran = refl;
  rest = same-SameRest c;
  total = omega arith;
  pool = lose-IsPool _ _ _ _ _ p (λ b. omega arith);
  all = all;
  ready = ready;
  older = λ b _. omega arith;
}

pub take_blocks-Got :
    (n : ℕ) (c : BlockController) (held : ℕ → ℕ) {Ready : Type 0}
    → PoolOf c c.total_allocated_blocks c.total_allocated_blocks held
    → (Ready → n ≤ length c.block_addresses)
    → Got n c held Ready (take_blocks n c)
unfolding take_blocks count
take_blocks-Got zero c held p enough = untaken-Got true zero c held p (λ _. refl) (λ _. refl)
take_blocks-Got (suc n) c held p enough = elim (Option-cases (try_pop c.block_addresses)) [
  | inl empty ↦
      rw (empty, take_blocks)
        (untaken-Got false (suc n) c held p (λ e. absurd (let never = e in cc))
          (λ h. absurd (omega (arith, enough h, try_pop-none c.block_addresses empty))))
  | inr ((b, queue), popped) ↦
      let e = try_pop-some c.block_addresses b queue popped in
      let total = c.total_allocated_blocks in
      let first : IsPool (b ∷ queue) c.block_addresses_reserve c.available total total held =
        subst (λ q. IsPool q c.block_addresses_reserve c.available total total held) e p in
      let taken =
        reset-Taken queue c.block_addresses_reserve c.available total total b first
          (below queue b held first) in
      let got =
        take_blocks-Got n (record c { block_addresses = queue; available = taken.after })
          (λ x. held x + one_if (b == x)) taken.pool (λ h. omega (arith, enough h, ap length e)) in
      rw (popped, take_blocks, taken.ran, got.ran)
        (record {
          done = got.done;
          blocks = b ∷ got.blocks;
          after = got.after;
          ran = refl;
          rest = chain-SameRest (queue-SameRest c queue taken.after taken.shape.capacity) got.rest;
          total = got.total;
          pool = lose-IsPool _ _ _ _ _ got.pool (λ x. omega arith);
          all = λ d. ap suc (got.all d);
          ready = got.ready;
          older = λ x low. omega (arith, got.older x low, ap (count x) e);
        })
]

pub Got-IsValid :
    {n : ℕ} {c : BlockController} {held : ℕ → ℕ} {Ready : Type 0}
    {out : Option (Bool × List ℕ × BlockController)}
    → IsValid c held
    → (got : Got n c held Ready out) → IsValid got.after (λ b. held b + count b got.blocks)
Got-IsValid v got =
    let rest = got.rest in
    let limit = rest.limit in
    let capacity = rest.capacity in
    let room = v.room in
    let few = v.few in
    record {
      pool = got.pool;
      room = omega (arith, limit, capacity, room);
      few = omega (arith, capacity, few);
    }
