-- ===== src/Resources/Expire.antt =====
-- Which items a pass of the timeout checker takes off.
use sptag.Base.{
  ℕ, zero, suc, ◌+◌, ◌≤◌, ◌<◌, ◌≡◌, refl, ap, inl, inr, List, [], ◌∷◌, ◌++◌, some, arith, leb,
  Bool-cases, length, get_elem?,
}
use sptag.Resources.{ResourceItem, expire}

pub empty_of-length : (items : List ResourceItem) → length items ≡ 0 → items ≡ []
empty_of-length [] h = refl
empty_of-length (x ∷ items) h = absurd (omega arith)

-- The items taken off had expired when the clock was read for them, and the next had not.
pub record Expired (clock : ℕ → ℕ) (k : ℕ) (gone rest : List ResourceItem) : Type 0 where
  pub due :
      (i : ℕ) (item : ResourceItem)
      → get_elem? gone i ≡ some item
      → item.expire_time ≤ clock (k + i)
  pub not_due :
      (item : ResourceItem)
      → get_elem? rest 0 ≡ some item
      → clock (k + length gone) < item.expire_time

due-cons :
    (clock : ℕ → ℕ) (k : ℕ) (item : ResourceItem) (gone : List ResourceItem)
    → item.expire_time ≤ clock k
    → ((i : ℕ) (x : ResourceItem) → get_elem? gone i ≡ some x → x.expire_time ≤ clock (k + 1 + i))
    → (i : ℕ) (x : ResourceItem) → get_elem? (item ∷ gone) i ≡ some x
    → x.expire_time ≤ clock (k + i)
due-cons clock k item gone now later zero x h =
    let e : k + 0 ≡ k = omega arith in let same : item ≡ x = grind arith in rw (e, ← same) now
due-cons clock k item gone now later (suc i) x h =
    let e : k + suc i ≡ k + 1 + i = omega arith in rw e (later i x h)

pub expire-Expired :
    (clock : ℕ → ℕ) (k : ℕ) (items : List ResourceItem)
    → (items ≡ (expire clock k items).0 ++ (expire clock k items).1)
      × Expired clock k (expire clock k items).0 (expire clock k items).1
unfolding expire
expire-Expired clock k [] = (
  refl,
  record { due = λ i item h. absurd (ground arith); not_due = λ item h. absurd (ground arith) },
)
expire-Expired clock k (item ∷ items) = elim (Bool-cases (leb item.expire_time (clock k))) [
  | inr early ↦ rw early (
    refl,
    record {
      due = λ i x h. absurd (ground arith);
      not_due = λ x h.
          let e : k + 0 ≡ k = omega arith in
          let same : item ≡ x = grind arith in rw (e, ← same) (ground arith);
    },
  )
  | inl over ↦
      let (same, ih) = expire-Expired clock (k + 1) items in
      rw over (
        ap (◌∷◌ item) same,
        record {
          due = due-cons clock k item _ (ground arith) ih.due;
          not_due = λ x h.
              let n = length (expire clock (k + 1) items).0 in
              let e : k + suc n ≡ k + 1 + n = omega arith in rw e (ih.not_due x h);
        },
      )
]
