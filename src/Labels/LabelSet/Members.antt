-- ===== src/Labels/LabelSet/Members.antt =====
-- The label set of LabelSet.h as the set of the keys that it marks.
use sptag.Base.{
  ℕ, zero, suc, ◌+◌, ◌-◌, ◌^◌, ◌%◌, ◌<◌, ◌≤◌, ◌≡◌, refl, ◌∙◌, sym, Bool, false, List, [], ◌∷◌, ◌++◌,
  some, arith, ltb, ◌==◌, not, Bool-cases, ltb→le, ◌||◌, ◌&&◌, if◌then◌else◌, get_elem?, set,
  length, replicate, ◌⊎◌, inl, inr, length-append, length-replicate, length-set, get_elem?-set,
  get_elem?-inside,
}
use sptag.Base.Int.{pos}
use sptag.Labels.{
  column, rows, past_end, at, put, unset, add_batch, count, count-set, count-bound, count-append,
  count-replicate, holds, holds-append,
}
use sptag.Labels.LabelSet.{
  InvalidIdBehavior, LabelSet, initialize, invalid_id, contains, insert, reset, add_rows,
}

-- Cells hold 1 or -1, and the counter counts the ones.
pub data IsMark : ℕ → Type 0 where
  is_set : IsMark 1
  is_unset : IsMark unset

pub data AreMarks : List ℕ → Type 0 where
  no_marks : AreMarks []
  cons : {x : ℕ} {xs : List ℕ} → IsMark x → AreMarks xs → AreMarks (x ∷ xs)

pub record IsValid (s : LabelSet) : Type 0 where
  pub marks : AreMarks s.data_.cells
  pub counted : s.inserted ≡ count 1 s.data_.cells
  pub fits : length s.data_.cells < 2 ^ 31

-- membership, as the set of the keys inside
pub member : LabelSet → ℕ → Bool
member s k = holds 1 (get_elem? s.data_.cells k)

marks-set : (xs : List ℕ) (i w : ℕ) → IsMark w → AreMarks xs → AreMarks (set xs i w)
marks-set [] i w m ms = ms
marks-set (x ∷ xs) zero w m (AreMarks.cons _ ms) = AreMarks.cons m ms
marks-set (x ∷ xs) (suc i) w m (AreMarks.cons n ms) = AreMarks.cons n (marks-set xs i w m ms)

marks-get :
    (xs : List ℕ) (i : ℕ) (a : ℕ) → AreMarks xs → get_elem? xs i ≡ some a → (a ≡ 1) ⊎ (a ≡ unset)
marks-get [] i a ms h = absurd (ground arith)
marks-get (x ∷ xs) zero a (AreMarks.cons is_set ms) h = inl (grind arith)
marks-get (x ∷ xs) zero a (AreMarks.cons is_unset ms) h = inr (grind arith)
marks-get (x ∷ xs) (suc i) a (AreMarks.cons n ms) h = marks-get xs i a ms h

-- the counter after a write over `old`
recount :
    (s : LabelSet) (k old w n : ℕ)
    → IsValid s
    → get_elem? s.data_.cells k ≡ some old
    → IsMark w
    → n ≡ count 1 (set s.data_.cells k w)
    → IsValid (record s { inserted = n; data_ = put s.data_ (pos k) w })
unfolding put
recount s k old w n v h m e = record {
  marks = marks-set s.data_.cells k w m v.marks;
  counted = e;
  fits = rw length-set v.fits;
}

member-put :
    (s : LabelSet) (k w n : ℕ) (inside : k < length s.data_.cells) (j : ℕ)
    → member (record s { inserted = n; data_ = put s.data_ (pos k) w }) j
      ≡ (if k == j then w == 1 else member s j)
unfolding put member
member-put s k w n inside j = ground (arith, get_elem?-set s.data_.cells k j w inside)

-- A key inside is asked for, and an answer is given.
pub contains-member :
    (s : LabelSet) (k : ℕ) → k < length s.data_.cells → contains s (pos k) ≡ some (member s k)
unfolding contains invalid_id past_end at member
contains-member s k inside = ground (arith, get_elem?-inside s.data_.cells k inside)

-- On a well-formed label set Insert of a key inside returns whether the key is new, makes it a
-- member, changes no other key, and keeps the set well-formed, its counter included.
pub insert-adds :
    (s : LabelSet) (k : ℕ)
    → IsValid s
    → k < length s.data_.cells
    → (t : LabelSet) × ((insert s (pos k) ≡ some (not (member s k), t))
        × (IsValid t × ((j : ℕ) → member t j ≡ (k == j || member s j))))
unfolding insert invalid_id past_end at member
insert-adds s k v inside =
    let (old, h) = get_elem?-inside s.data_.cells k inside in
    let c = count-set 1 1 s.data_.cells k old h in
    let few = count-bound 1 (set s.data_.cells k 1) in
    let wide = length-set s.data_.cells k 1 in
    elim (marks-get s.data_.cells k old v.marks h) [
      | inl e ↦ (
        record s { data_ = put s.data_ (pos k) 1 },
        (
          ground arith,
          (
            recount s k old 1 s.inserted v h is_set (ground (arith, v.counted, v.fits, c)),
            (λ j. member-put s k 1 s.inserted inside j ∙ ground arith),
          ),
        ),
      )
      | inr e ↦ (
        record s { inserted = (s.inserted + 1) % 2 ^ 32; data_ = put s.data_ (pos k) 1 },
        (
          ground arith,
          (
            recount s k old 1 ((s.inserted + 1) % 2 ^ 32) v h is_set
                (ground (arith, v.counted, v.fits, c)),
            (λ j. member-put s k 1 ((s.inserted + 1) % 2 ^ 32) inside j ∙ ground arith),
          ),
        ),
      )
    ]

-- On a well-formed label set Reset of a key inside returns whether the key was a member, makes it
-- none, changes no other key, and keeps the set well-formed, its counter included.
pub reset-removes :
    (s : LabelSet) (k : ℕ)
    → IsValid s
    → k < length s.data_.cells
    → (t : LabelSet) × ((reset s (pos k) ≡ some (member s k, t))
        × (IsValid t × ((j : ℕ) → member t j ≡ (not (k == j) && member s j))))
unfolding reset invalid_id past_end at member
reset-removes s k v inside =
    let (old, h) = get_elem?-inside s.data_.cells k inside in
    let c = count-set 1 unset s.data_.cells k old h in
    let few = count-bound 1 s.data_.cells in
    let n = (s.inserted + (2 ^ 32 - 1)) % 2 ^ 32 in
    elim (marks-get s.data_.cells k old v.marks h) [
      | inl e ↦ (
        record s { inserted = n; data_ = put s.data_ (pos k) unset },
        (
          ground arith,
          (
            recount s k old unset n v h is_unset (ground (arith, v.counted, v.fits, c)),
            (λ j. member-put s k unset n inside j ∙ ground arith),
          ),
        ),
      )
      | inr e ↦ (
        record s { data_ = put s.data_ (pos k) unset },
        (
          ground arith,
          (
            recount s k old unset s.inserted v h is_unset (ground (arith, v.counted, v.fits, c)),
            (λ j. member-put s k unset s.inserted inside j ∙ ground arith),
          ),
        ),
      )
    ]

replicate-AreMarks : (n : ℕ) → AreMarks (replicate n unset)
replicate-AreMarks zero = no_marks
replicate-AreMarks (suc n) = cons is_unset (replicate-AreMarks n)

append-AreMarks : (xs ys : List ℕ) → AreMarks xs → AreMarks ys → AreMarks (xs ++ ys)
append-AreMarks [] ys p q = q
append-AreMarks (x ∷ xs) ys (AreMarks.cons m p) q = cons m (append-AreMarks xs ys p q)

pub initialize-IsValid :
    (size capacity : ℕ) (behavior : InvalidIdBehavior)
    → size < 2 ^ 31
    → IsValid (initialize size capacity behavior)
unfolding initialize column
initialize-IsValid size capacity behavior h = record {
  marks = replicate-AreMarks size;
  counted = sym (count-replicate 1 unset size refl);
  fits = rw length-replicate h;
}

pub member-initialize :
    (size capacity : ℕ) (behavior : InvalidIdBehavior) (k : ℕ)
    → member (initialize size capacity behavior) k ≡ false
unfolding member initialize column
member-initialize size capacity behavior k = holds-append 1 [] size k refl

pub initialize-room :
    (size capacity : ℕ) (behavior : InvalidIdBehavior)
    → let s = initialize size capacity behavior in
      (length s.data_.cells ≡ size) × (s.data_.max_rows ≡ capacity)
unfolding initialize column
initialize-room size capacity behavior = (length-replicate size unset, refl)

-- AddBatch of a well-formed label set below its capacity of 2^31 keeps it well-formed and makes
-- no key a member, whether the rows fit or not.
pub add_rows-keeps :
    (s : LabelSet) (num : ℕ)
    → IsValid s
    → s.data_.max_rows < 2 ^ 31
    → let t = (add_rows s num).1 in IsValid t × ((k : ℕ) → member t k ≡ member s k)
unfolding add_rows add_batch member
add_rows-keeps s num v h = elim (Bool-cases (ltb s.data_.max_rows (rows s.data_ + num))) [
  | inl over ↦ rw over (v, (λ k. refl))
  | inr room ↦
      let fewer = ltb→le _ _ room in
      rw room (
        record {
          marks = append-AreMarks _ _ v.marks (replicate-AreMarks num);
          counted = rw (count-append, count-replicate 1 unset num refl) (omega (arith, v.counted));
          fits = rw (length-append, length-replicate) (omega arith);
        },
        (λ k. holds-append 1 s.data_.cells num k refl),
      )
]

-- what the operations leave as it is
pub record SameShape (s t : LabelSet) : Type 0 where
  pub cells : length t.data_.cells ≡ length s.data_.cells
  pub capacity : t.data_.max_rows ≡ s.data_.max_rows

pub insert-SameShape :
    (s t : LabelSet) (k : ℕ) (b : Bool)
    → k < length s.data_.cells
    → insert s (pos k) ≡ some (b, t)
    → SameShape s t
unfolding insert invalid_id past_end at put
insert-SameShape s t k b inside h =
    let (old, e) = get_elem?-inside s.data_.cells k inside in
    ground (arith, length-set s.data_.cells k 1)

pub reset-SameShape :
    (s t : LabelSet) (k : ℕ) (b : Bool)
    → k < length s.data_.cells
    → reset s (pos k) ≡ some (b, t)
    → SameShape s t
unfolding reset invalid_id past_end at put
reset-SameShape s t k b inside h =
    let (old, e) = get_elem?-inside s.data_.cells k inside in
    ground (arith, length-set s.data_.cells k unset)

pub add_rows-room :
    (s : LabelSet) (num : ℕ)
    → length s.data_.cells + num ≤ s.data_.max_rows
    → (length (add_rows s num).1.data_.cells ≡ length s.data_.cells + num)
      × ((add_rows s num).1.data_.max_rows ≡ s.data_.max_rows)
unfolding add_rows add_batch
add_rows-room s num h =
    ground (arith, length-append s.data_.cells (replicate num unset), length-replicate num unset)
