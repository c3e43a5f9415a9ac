-- ===== src/Postings/Lost.antt =====
-- `IncSize` of AnnService/inc/Core/Common/PostingSizeRecord.h under interference: what the sizes hold.
use sptag.Base.{
  ℕ, zero, suc, ◌+◌, ◌%◌, ◌^◌, ◌<◌, ◌≡◌, refl, ap, sym, ◌∙◌, inl, inr, Bool, true, false, List, [],
  ◌∷◌, some, arith, ltb, ◌==◌, if◌then◌else◌, get_elem?, get_elem?-set, set, length, map,
  Bool-cases, ==_iff,
}
use mathlib.Core.Option.{some_inj}
use sptag.Base.Sums.{total, total-set, every, every-get_elem?, every-set}
use sptag.Postings.{
  Call, inc_size, update_size, head_of, new_size, Thread, looping, loaded, returned, System, Step,
  load, win, lose, Run, start, later, begin,
}

-- what a call that has returned added to the size at `h`
pub added : ℕ → Thread → ℕ
added h (returned (inc_size head num)) = if head == h then num else 0
added h _ = 0

unfoldable pub is_inc : Call → Bool
is_inc (inc_size head num) = true
is_inc (update_size head num) = false

increments : Thread → Bool
increments (looping c) = is_inc c
increments (loaded c old) = is_inc c
increments (returned c) = is_inc c

-- the sizes since `sizes`
record Adds (sizes : List ℕ) (s : System) : Type 0 where
  all : every increments s.threads ≡ true
  cells :
      (h first : ℕ)
      → get_elem? sizes h ≡ some first
      → get_elem? s.sizes h ≡ some ((first + total (added h) s.threads) % 2 ^ 32)

-- a step that adds nothing
unchanged :
    (sizes : List ℕ) (s : System) (i : ℕ) (th th' : Thread)
    → Adds sizes s
    → get_elem? s.threads i ≡ some th
    → increments th' ≡ true
    → ((h : ℕ) → added h th ≡ added h th')
    → Adds sizes (record s { threads = set s.threads i th' })
unchanged sizes s i th th' a e inc same = record {
  all = every-set increments s.threads i th' a.all inc;
  cells = λ h first r.
      let kept : total (added h) (set s.threads i th') ≡ total (added h) s.threads =
        omega (arith, total-set (added h) s.threads i th th' e, same h) in
      rw kept (a.cells h first r);
}

added_more :
    (first sum num : ℕ) → ((first + sum) % 2 ^ 32 + num) % 2 ^ 32 ≡ (first + (sum + num)) % 2 ^ 32
added_more first sum num = omega arith

inside : (xs : List ℕ) (i x : ℕ) → get_elem? xs i ≡ some x → i < length xs
inside [] i x h = absurd (let never = h in cc)
inside (y ∷ xs) zero x h = omega arith
inside (y ∷ xs) (suc i) x h = omega (arith, inside xs i x h)

inc-Adds :
    (sizes : List ℕ) (s : System) (i head num old : ℕ)
    → Adds sizes s
    → get_elem? s.threads i ≡ some (loaded (inc_size head num) old)
    → get_elem? s.sizes head ≡ some old
    → Adds sizes (record {
      sizes = set s.sizes head ((old + num) % 2 ^ 32);
      threads = set s.threads i (returned (inc_size head num));
    })
unfolding increments is_inc added
inc-Adds sizes s i head num old a e r = record {
  all = every-set increments s.threads i (returned (inc_size head num)) a.all refl;
  cells = λ h first q.
      let now = a.cells h first q in
      let ended = set s.threads i (returned (inc_size head num)) in
      let sum : total (added h) ended + 0
          ≡ total (added h) s.threads + (if head == h then num else 0) =
        total-set (added h) s.threads i (loaded (inc_size head num) old)
          (returned (inc_size head num)) e in
      get_elem?-set s.sizes head h ((old + num) % 2 ^ 32) (inside s.sizes head old r)
      ∙ elim (Bool-cases (head == h)) [
        | inl is ↦
            let same : head ≡ h = (==_iff head h).0 is in
            let read : old ≡ (first + total (added h) s.threads) % 2 ^ 32 =
              some_inj.0 (sym (rw same at r) ∙ now) in
            let more : total (added h) ended ≡ total (added h) s.threads + num =
              omega (arith, rw is at sum) in
            rw (is, read, more) (ap some (added_more first (total (added h) s.threads) num))
        | inr differs ↦
            let kept : total (added h) ended ≡ total (added h) s.threads =
              omega (arith, rw differs at sum) in
            rw (differs, kept) now
      ];
}

win-Adds :
    (sizes : List ℕ) (s : System) (i : ℕ) (c : Call) (old : ℕ)
    → Adds sizes s
    → get_elem? s.threads i ≡ some (loaded c old)
    → get_elem? s.sizes (head_of c) ≡ some old
    → Adds sizes (record {
      sizes = set s.sizes (head_of c) (new_size c old);
      threads = set s.threads i (returned c);
    })
unfolding increments is_inc
win-Adds sizes s i (inc_size head num) old a e r = inc-Adds sizes s i head num old a e r
win-Adds sizes s i (update_size head num) old a e r =
    absurd (let never = every-get_elem? increments s.threads i _ a.all e in cc)

Step-Adds : (sizes : List ℕ) {s t : System} → Step s t → Adds sizes s → Adds sizes t
unfolding increments is_inc added
Step-Adds sizes {s} (load i {c} {old} e r) a =
    unchanged sizes s i (looping c) (loaded c old) a e
      (every-get_elem? increments s.threads i (looping c) a.all e) (λ h. refl)
Step-Adds sizes {s} (lose i {c} {old} e r changed) a =
    unchanged sizes s i (loaded c old) (looping c) a e
      (every-get_elem? increments s.threads i (loaded c old) a.all e) (λ h. refl)
Step-Adds sizes {s} (win i {c} {old} e r) a = win-Adds sizes s i c old a e r

Run-Adds : (sizes : List ℕ) {s t : System} {k : ℕ} → Run s k t → Adds sizes s → Adds sizes t
Run-Adds sizes start a = a
Run-Adds sizes (later run step) a = Step-Adds sizes step (Run-Adds sizes run a)

unfoldable pub all_inc : List Call → Bool
all_inc calls = every is_inc calls

unfoldable pub fits : List ℕ → Bool
fits sizes = every (λ x. ltb x (2 ^ 32)) sizes

begin-increments :
    (calls : List Call) → all_inc calls ≡ true → every increments (map looping calls) ≡ true
unfolding all_inc every increments
begin-increments [] h = refl
begin-increments (c ∷ cs) h = ground (arith, h, begin-increments cs)

begin-added : (h : ℕ) (calls : List Call) → total (added h) (map looping calls) ≡ 0
unfolding total added
begin-added h [] = refl
begin-added h (c ∷ cs) = omega (arith, begin-added h cs)

begin-Adds :
    (sizes : List ℕ) (calls : List Call)
    → all_inc calls ≡ true
    → fits sizes ≡ true
    → Adds sizes (begin sizes calls)
unfolding begin fits
begin-Adds sizes calls inc fit = record {
  all = begin-increments calls inc;
  cells = λ h first r.
      let small : ltb first (2 ^ 32) ≡ true = every-get_elem? _ sizes h first fit r in
      let same : (first + 0) % 2 ^ 32 ≡ first = ground (arith, small) in
      rw (begin-added h calls, same) r;
}

-- However calls of IncSize from any number of threads interleave, at every moment the size of a
-- head is what it was before, below 2^32, plus what the calls on this head that have returned
-- added, modulo 2^32.
pub sizes_add :
    (sizes : List ℕ) (calls : List Call) (k : ℕ) (t : System) (h first : ℕ)
    → all_inc calls ≡ true
    → fits sizes ≡ true
    → Run (begin sizes calls) k t
    → get_elem? sizes h ≡ some first
    → get_elem? t.sizes h ≡ some ((first + total (added h) t.threads) % 2 ^ 32)
sizes_add sizes calls k t h first inc fit run found =
    (Run-Adds sizes run (begin-Adds sizes calls inc fit)).cells h first found
