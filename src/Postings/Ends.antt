-- ===== src/Postings/Ends.antt =====
-- The exchange loops of AnnService/inc/Core/Common/PostingSizeRecord.h under interference: they end.
use sptag.Base.{
  ap, sym, subst, set-set_self, get_elem?-set, get_elem?-past, ℕ, ◌+◌, ◌*◌, ◌≤◌, ◌<◌, ◌≡◌, refl,
  ◌∙◌, inl, inr, Bool, true, false, List, [], ◌∷◌, Option, none, some, arith, ltb, ◌==◌,
  if◌then◌else◌, get_elem?, get_elem?-inside, set, length, length-set, length-map, map, Bool-cases,
  ==_iff, ==_refl,
}
use sptag.Base.Sums.{total, total-set, total-rises, every, every-get_elem?, every-set}
use sptag.Postings.{
  Call, head_of, new_size, Thread, looping, loaded, returned, System, Step, load, win, lose, Run,
  start, later, begin,
}

-- the size that was read still stands
current : Option ℕ → ℕ → Bool
current none old = false
current (some now) old = now == old

-- how many accesses a thread may still make before another one writes, and what it owes to those
-- whose reading its own write makes old
weight : ℕ → List ℕ → Thread → ℕ
weight n sizes (returned c) = 0
weight n sizes (looping c) = 2 + 2 * n
weight n sizes (loaded c old) = (if current (get_elem? sizes (head_of c)) old then 1 else 3) + 2 * n

-- an upper bound of the accesses that follow
pub potential : System → ℕ
potential s = total (weight (length s.threads) s.sizes) s.threads

weight_rises :
    (n : ℕ) (sizes sizes' : List ℕ) (th : Thread) → weight n sizes' th ≤ weight n sizes th + 2
unfolding weight
weight_rises n sizes sizes' (returned c) = omega arith
weight_rises n sizes sizes' (looping c) = omega arith
weight_rises n sizes sizes' (loaded c old) = ground arith

weight-loaded :
    (n : ℕ) (sizes : List ℕ) (c : Call) (old : ℕ) → 2 * n < weight n sizes (loaded c old)
unfolding weight
weight-loaded n sizes c old = ground arith

Step-potential :
    {s t : System} → Step s t → (potential t < potential s) × (length t.threads ≡ length s.threads)
unfolding potential
Step-potential {s} (load i {c} {old} e r) =
    let n = length s.threads in
    let same = length-set s.threads i (loaded c old) in
    let now : weight n s.sizes (loaded c old) ≡ 1 + 2 * n =
      unfold weight in unfold current in rw (r, ==_refl old) refl in
    let before : weight n s.sizes (looping c) ≡ 2 + 2 * n = unfold weight in refl in
    (
      rw same (
          omega (
            arith,
            now,
            before,
            total-set (weight n s.sizes) s.threads i (looping c) (loaded c old) e,
          )),
      same,
    )
Step-potential {s} (win i {c} {old} e r) =
    let n = length s.threads in
    let sizes' = set s.sizes (head_of c) (new_size c old) in
    let same = length-set s.threads i (returned c) in
    let gone : weight n sizes' (returned c) ≡ 0 = unfold weight in refl in
    (
      rw same (
          omega (
            arith,
            gone,
            weight-loaded n sizes' c old,
            total-set (weight n sizes') s.threads i (loaded c old) (returned c) e,
            total-rises (weight n s.sizes) (weight n sizes') 2 s.threads
                (weight_rises n s.sizes sizes'),
          )),
      same,
    )
Step-potential {s} (lose i {c} {old} {now} e r changed) =
    let n = length s.threads in
    let same = length-set s.threads i (looping c) in
    let differ : (now == old) ≡ false = elim (Bool-cases (now == old)) [
      | inl is ↦ absurd (changed ((==_iff now old).0 is))
      | inr other ↦ other
    ] in
    let before : weight n s.sizes (loaded c old) ≡ 3 + 2 * n =
      unfold weight in unfold current in rw (r, differ) refl in
    let after : weight n s.sizes (looping c) ≡ 2 + 2 * n = unfold weight in refl in
    (
      rw same (
          omega (
            arith,
            before,
            after,
            total-set (weight n s.sizes) s.threads i (loaded c old) (looping c) e,
          )),
      same,
    )

Run-potential :
    {s : System} {k : ℕ} {t : System}
    → Run s k t
    → (k + potential t ≤ potential s) × (length t.threads ≡ length s.threads)
Run-potential start = (omega arith, refl)
Run-potential (later run step) =
    let (bound, same) = Run-potential run in
    let (falls, kept) = Step-potential step in (omega arith, kept ∙ same)

total-begin :
    (n : ℕ) (sizes : List ℕ) (calls : List Call)
    → total (weight n sizes) (map looping calls) ≡ length calls * (2 + 2 * n)
unfolding total weight
total-begin n sizes [] = omega arith
total-begin n sizes (c ∷ cs) = grind (arith, total-begin n sizes cs)

-- However n calls of UpdateSize and IncSize interleave, they make at most n * (2 + 2 * n)
-- accesses to the sizes in all: no loop of theirs runs forever.
pub calls_end :
    (sizes : List ℕ) (calls : List Call) (k : ℕ) (t : System)
    → Run (begin sizes calls) k t
    → k ≤ length calls * (2 + 2 * length calls)
unfolding begin potential
calls_end sizes calls k t run =
    let n = length (map looping calls) in
    let first : potential (begin sizes calls) ≡ length calls * (2 + 2 * n) =
      total-begin n sizes calls in
    let bound = (Run-potential run).0 in
    let same : n ≡ length calls = length-map looping calls in
    let steps : k ≤ length calls * (2 + 2 * n) = omega (arith, first, bound) in rw same at steps

unfoldable pub has_returned : Thread → Bool
has_returned (returned c) = true
has_returned _ = false

inside : ℕ → Thread → Bool
inside n (looping c) = ltb (head_of c) n
inside n (loaded c old) = ltb (head_of c) n
inside n (returned c) = ltb (head_of c) n

AreInside : System → Type 0
AreInside s = every (inside (length s.sizes)) s.threads ≡ true

Step-inside : {s t : System} → Step s t → AreInside s → AreInside t
unfolding AreInside
Step-inside {s} (load i {c} {old} e r) h =
    every-set _ s.threads i (loaded c old) h (unfold inside in every-get_elem? _ s.threads i _ h e)
Step-inside {s} (win i {c} {old} e r) h =
    rw (length-set s.sizes (head_of c) (new_size c old)) (
      every-set _ s.threads i (returned c) h (unfold inside in every-get_elem? _ s.threads i _ h e))
Step-inside {s} (lose i {c} {old} e r changed) h =
    every-set _ s.threads i (looping c) h (unfold inside in every-get_elem? _ s.threads i _ h e)

pub call_of : Thread → Call
call_of (looping c) = c
call_of (loaded c old) = c
call_of (returned c) = c

-- A thread goes on alone: a few accesses end its call, which has written over the size that stood.
pub record Returns (t : System) (i : ℕ) (c : Call) : Type 0 where
  pub old : ℕ
  pub stood : get_elem? t.sizes (head_of c) ≡ some old
  pub accesses : ℕ
  pub few : accesses ≤ 3
  pub run : Run t accesses (record {
    sizes = set t.sizes (head_of c) (new_size c old);
    threads = set t.threads i (returned c);
  })

changed :
    (s : System) (i : ℕ) (th th' : Thread)
    → get_elem? s.threads i ≡ some th
    → get_elem? (set s.threads i th') i ≡ some th'
changed s i th th' e = elim (Bool-cases (ltb i (length s.threads))) [
  | inl low ↦ get_elem?-set s.threads i i th' (ground (arith, low)) ∙ rw (==_refl i) refl
  | inr past ↦
      absurd (let never = sym (get_elem?-past s.threads i (ground (arith, past))) ∙ e in cc)
]

loaded-Run :
    (t : System) (i : ℕ) (c : Call) (old : ℕ)
    → get_elem? t.threads i ≡ some (loaded c old)
    → get_elem? t.sizes (head_of c) ≡ some old
    → Run t 1 (record {
      sizes = set t.sizes (head_of c) (new_size c old);
      threads = set t.threads i (returned c);
    })
loaded-Run t i c old e r = later start (win i e r)

looping-Run :
    (t : System) (i : ℕ) (c : Call) (old : ℕ)
    → get_elem? t.threads i ≡ some (looping c)
    → get_elem? t.sizes (head_of c) ≡ some old
    → Run t 2 (record {
      sizes = set t.sizes (head_of c) (new_size c old);
      threads = set t.threads i (returned c);
    })
looping-Run t i c old e r =
    subst
      (λ threads.
        Run t 2 (record { sizes = set t.sizes (head_of c) (new_size c old); threads = threads }))
      (set-set_self t.threads i (loaded c old) (returned c))
      (later (later start (load i e r)) (win i (changed t i (looping c) (loaded c old) e) r))

chain-Run : {s t u : System} (j : ℕ) {k : ℕ} → Run s j t → Run t k u → Run s (k + j) u
chain-Run {s} {t} j first start = subst (λ n. Run s n t) (omega arith) first
chain-Run {s} {u = u} j first (later {k} rest step) =
    subst (λ n. Run s n u) (omega arith) (later (chain-Run j first rest) step)

alone-Returns :
    (t : System) (i : ℕ) (th : Thread)
    → get_elem? t.threads i ≡ some th
    → has_returned th ≡ false
    → inside (length t.sizes) th ≡ true
    → Returns t i (call_of th)
unfolding inside has_returned call_of
alone-Returns t i (looping c) e open_ h =
    let (old, r) = get_elem?-inside t.sizes (head_of c) (ground (arith, h)) in
    record {
      old = old;
      stood = r;
      accesses = 2;
      few = omega arith;
      run = looping-Run t i c old e r;
    }
alone-Returns t i (loaded c old) e open_ h =
    let (now, r) = get_elem?-inside t.sizes (head_of c) (ground (arith, h)) in
    elim (Bool-cases (now == old)) [
      | inl same ↦
          let stood : get_elem? t.sizes (head_of c) ≡ some old =
            r ∙ ap some ((==_iff now old).0 same) in
          record {
            old = old;
            stood = stood;
            accesses = 1;
            few = omega arith;
            run = loaded-Run t i c old e stood;
          }
      | inr differ ↦
          let first : Step t (record t { threads = set t.threads i (looping c) }) =
            lose i e r (λ is. absurd (let never = rw (is, ==_refl old) at differ in cc)) in
          let rest =
            looping-Run (record t { threads = set t.threads i (looping c) }) i c now
              (changed t i (loaded c old) (looping c) e) r in
          record {
            old = now;
            stood = r;
            accesses = 3;
            few = omega arith;
            run =
                subst
                  (λ threads. Run t 3 (record {
                    sizes = set t.sizes (head_of c) (new_size c now);
                    threads = threads;
                  }))
                  (set-set_self t.threads i (looping c) (returned c))
                  (chain-Run 1 (later start first) rest);
          }
    ]
alone-Returns t i (returned c) e open_ h = absurd (let never = open_ in cc)

Run-inside : {s : System} {k : ℕ} {t : System} → Run s k t → AreInside s → AreInside t
Run-inside start h = h
Run-inside (later run step) h = Step-inside step (Run-inside run h)

unfoldable pub heads_inside : ℕ → List Call → Bool
heads_inside n calls = every (λ c. ltb (head_of c) n) calls

begin-inside :
    (sizes : List ℕ) (n : ℕ) (calls : List Call)
    → heads_inside n calls ≡ true
    → every (inside n) (map looping calls) ≡ true
unfolding heads_inside every inside
begin-inside sizes n [] h = refl
begin-inside sizes n (c ∷ cs) h = ground (arith, h, begin-inside sizes n cs)

-- In every interleaving of calls of UpdateSize and IncSize on heads inside the column, a call
-- that has not returned returns by at most three accesses of its thread alone, if these come
-- next: it has then written its new size over the one that stood, and nothing else has changed.
pub calls_return :
    (sizes : List ℕ) (calls : List Call) (k : ℕ) (t : System) (i : ℕ) (th : Thread)
    → heads_inside (length sizes) calls ≡ true
    → Run (begin sizes calls) k t
    → get_elem? t.threads i ≡ some th
    → has_returned th ≡ false
    → Returns t i (call_of th)
unfolding AreInside
calls_return sizes calls k t i th h run found open_ =
    let all = Run-inside run (unfold begin in begin-inside sizes (length sizes) calls h) in
    alone-Returns t i th found open_ (every-get_elem? _ t.threads i th all found)
