-- ===== src/FileIo/Pages.antt =====
-- Pages written and read by AnnService/src/Core/SPANN/ExtraFileController.cpp.
use mathlib.Core.List.{append_assoc}
use sptag.Base.{
  ℕ, zero, suc, ◌+◌, ◌-◌, ◌*◌, ◌≤◌, ◌<◌, ◌≡◌, refl, ap, sym, ◌∙◌, min, Bool, true, false, List, [],
  ◌∷◌, ◌++◌, length, length-take, length-drop, take, drop, take-append-drop, take-append_self, ◌==◌,
  all_below, all_below_sound, arith, inl, inr, Bool-cases,
}
use sptag.Wire.{Bytes}
use sptag.Labels.{count}
use sptag.BlockPool.{Device, page_size}
use sptag.FileIo.{read_pages, write_page, write_pages}

-- a page that is not written stays
pub write_pages-other :
    (device : Device) (i : ℕ) (bs : List ℕ) (value : Bytes) (pages : ℕ → Bytes) (b : ℕ)
    → count b bs ≡ 0
    → write_pages device i bs value pages b ≡ pages b
unfolding write_pages write_page count
write_pages-other device i [] value pages b h = refl
write_pages-other device i (a ∷ bs) value pages b h =
    let other : (b == a) ≡ false = ground (arith, h) in
    let rest : count b bs ≡ 0 = omega (arith, h) in
    elim (Bool-cases (device.writes i)) [
      | inl done ↦ rw done (
          write_pages-other device (suc i) bs (drop page_size value)
            (write_page pages a (take page_size value ++ device.stale i)) b rest
          ∙ rw other refl)
      | inr lost ↦ rw lost (write_pages-other device (suc i) bs (drop page_size value) pages b rest)
    ]

pub read_pages-same :
    (pages pages' : ℕ → Bytes) (bs : List ℕ) (size : ℕ)
    → ((b : ℕ) → 0 < count b bs → pages' b ≡ pages b)
    → read_pages pages' bs size ≡ read_pages pages bs size
unfolding read_pages count
read_pages-same pages pages' [] size h = refl
read_pages-same pages pages' (b ∷ bs) size h =
    let here : pages' b ≡ pages b = h b (ground arith) in
    let rest =
      read_pages-same pages pages' bs (size - page_size) (λ a more. h a (omega (arith, more))) in
    rw (here, rest) refl

own : (pages : ℕ → Bytes) (b : ℕ) (page : Bytes) → write_page pages b page b ≡ page
unfolding write_page
own pages b page = ground arith

-- what was written is read back
pub read_pages-write_pages :
    (device : Device) (i : ℕ) (bs : List ℕ) (value : Bytes) (pages : ℕ → Bytes)
    → ((b : ℕ) → count b bs ≤ 1)
    → ((j : ℕ) → i ≤ j → j < i + length bs → device.writes j ≡ true)
    → length value ≤ length bs * page_size
    → read_pages (write_pages device i bs value pages) bs (length value) ≡ value
unfolding read_pages write_pages count
read_pages-write_pages device i [] [] pages once all fits = refl
read_pages-write_pages device i [] (x ∷ value) pages once all fits = absurd (omega arith)
read_pages-write_pages device i (b ∷ bs) value pages once all fits =
    let chunk : Bytes = take page_size value in
    let rest : Bytes = drop page_size value in
    let pages' : ℕ → Bytes = write_page pages b (chunk ++ device.stale i) in
    let done : device.writes i ≡ true = all i (omega arith) (omega arith) in
    let alone : count b bs ≡ 0 = ground (arith, once b) in
    let here : write_pages device (suc i) bs rest pages' b ≡ chunk ++ device.stale i =
      write_pages-other device (suc i) bs rest pages' b alone
      ∙ own pages b (chunk ++ device.stale i) in
    let tail : read_pages (write_pages device (suc i) bs rest pages') bs (length rest) ≡ rest =
      read_pages-write_pages device (suc i) bs rest pages' (λ a. omega (arith, once a))
        (λ j low high. all j (omega (arith, low)) (omega (arith, high)))
        (omega (arith, fits, length-drop page_size value)) in
    let size : length rest ≡ length value - page_size = length-drop page_size value in
    let wide : length chunk ≡ min (length value) page_size =
      omega (arith, length-take page_size value) in
    let first : take (min (length value) page_size) (chunk ++ device.stale i) ≡ chunk =
      take-append_self chunk (device.stale i) (min (length value) page_size) wide in
    let opened : write_pages device i (b ∷ bs) value pages
        ≡ write_pages device (suc i) bs rest pages' =
      rw done refl in
    ap (λ f. read_pages f (b ∷ bs) (length value)) opened
    ∙ rw (here, first, sym size, tail) (take-append-drop page_size value)

-- the blocks of the full pages, and those behind them
pub read_pages-append :
    (pages : ℕ → Bytes) (bs cs : List ℕ) (size : ℕ)
    → read_pages pages (bs ++ cs) (length bs * page_size + size)
      ≡ read_pages pages bs (length bs * page_size) ++ read_pages pages cs size
unfolding read_pages
read_pages-append pages [] cs size = ap (read_pages pages cs) (omega arith)
read_pages-append pages (b ∷ bs) cs size =
    let full : min (length (b ∷ bs) * page_size + size) page_size ≡ page_size = omega arith in
    let whole : min (length (b ∷ bs) * page_size) page_size ≡ page_size = omega arith in
    let less : length (b ∷ bs) * page_size + size - page_size ≡ length bs * page_size + size =
      omega arith in
    let fewer : length (b ∷ bs) * page_size - page_size ≡ length bs * page_size = omega arith in
    rw (full, whole, less, fewer, read_pages-append pages bs cs size)
      (sym (
        append_assoc (take page_size (pages b)) (read_pages pages bs (length bs * page_size))
          (read_pages pages cs size)))

-- a posting with no bytes behind its full pages
pub read_pages-zero : (pages : ℕ → Bytes) (bs : List ℕ) → read_pages pages bs 0 ≡ []
unfolding read_pages
read_pages-zero pages [] = refl
read_pages-zero pages (b ∷ bs) = read_pages-zero pages bs

pub all_below-at :
    (n : ℕ) (p : ℕ → Bool) → all_below n p ≡ true → (j : ℕ) → 0 ≤ j → j < n → p j ≡ true
all_below-at n p h j _ low = all_below_sound n p j h low

pub all_below-false : (n : ℕ) (p : ℕ → Bool) → all_below n p ≡ false → ((i : ℕ) → p i ≡ true) → ⊥
all_below-false zero p h all = let never = h in cc
all_below-false (suc n) p h all = all_below-false n p (ground (arith, h, all n)) all
