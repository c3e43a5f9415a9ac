-- ===== src/FileIo/Valid.antt =====
-- The postings of AnnService/inc/Core/SPANN/ExtraFileController.h as a map from keys to strings.
use mathlib.Core.Option.{some_inj}
use sptag.Base.{
  ℕ, zero, suc, ◌+◌, ◌≤◌, ◌<◌, ◌≡◌, refl, ap, ◌∙◌, inl, inr, Bool, true, false, ◌&&◌, List, [], ◌∷◌,
  Option, none, some, length, get_elem?, set, ◌==◌, if◌then◌else◌, arith, Bool-cases, get_elem?-set,
  Option-cases,
}
use sptag.Base.Sums.{total, total-set, every}
use sptag.Wire.{Bytes}
use sptag.Labels.{count}
use sptag.BlockPool.{BlockController}
use sptag.BlockPool.Valid as Blocks
use sptag.FileIo.{Entry, unmapped, unwritten, posting, FileIo, block_count, read_pages}
use sptag.FileIo.Pages.{read_pages-same}

unfoldable pub entry_blocks : Entry → List ℕ
entry_blocks (posting size bs) = bs
entry_blocks _ = []

-- how often the entries name a block
unfoldable pub held : List Entry → ℕ → ℕ
held mapping b = total (λ e. count b (entry_blocks e)) mapping

-- A posting has the blocks that its size wants, with as many bytes. An array without a posting stands only
-- after `Load`.
unfoldable pub sound : (ℕ → Bytes) → Entry → Bool
sound pages unmapped = true
sound pages unwritten = false
sound pages (posting size bs) =
    length bs == block_count size && length (read_pages pages bs size) == size

unfoldable pub entry_value : (ℕ → Bytes) → Entry → Option Bytes
entry_value pages (posting size bs) = some (read_pages pages bs size)
entry_value pages _ = none

unfoldable pub value_at : (ℕ → Bytes) → Option Entry → Option Bytes
value_at pages none = none
value_at pages (some e) = entry_value pages e

-- the map
unfoldable pub value_of : FileIo → ℕ → Option Bytes
value_of io key = value_at io.pages (get_elem? io.mapping key)

pub record IsValid (io : FileIo) : Type 0 where
  pub pool : Blocks.IsValid io.controller (held io.mapping)
  pub entries : every (sound io.pages) io.mapping ≡ true
  pub spare : 0 < io.buffer
  pub limit : 0 < io.buffer_limit

pub held-set :
    (mapping : List Entry) (key : ℕ) (e e' : Entry) (b : ℕ)
    → get_elem? mapping key ≡ some e
    → held (set mapping key e') b + count b (entry_blocks e)
      ≡ held mapping b + count b (entry_blocks e')
unfolding held
held-set mapping key e e' b h = total-set (λ x. count b (entry_blocks x)) mapping key e e' h

pub held-le :
    (mapping : List Entry) (key : ℕ) (e : Entry) (b : ℕ)
    → get_elem? mapping key ≡ some e
    → count b (entry_blocks e) ≤ held mapping b
unfolding held total
held-le [] key e b h = absurd (let never = h in cc)
held-le (x ∷ mapping) zero e b h = rw (some_inj.0 h) (omega arith)
held-le (x ∷ mapping) (suc key) e b h = omega (arith, held-le mapping key e b h)

-- Pages that agree on the blocks in use.
module _ (pages pages' : ℕ → Bytes) where
  entry-same :
      (e : Entry)
      → ((b : ℕ) → 0 < count b (entry_blocks e) → pages' b ≡ pages b)
      → (sound pages' e ≡ sound pages e) × (entry_value pages' e ≡ entry_value pages e)
  unfolding sound entry_value entry_blocks
  entry-same unmapped h = (refl, refl)
  entry-same unwritten h = (refl, refl)
  entry-same (posting size bs) h =
      let same = read_pages-same pages pages' bs size h in (rw same refl, rw same refl)

  pub sound-same :
      (mapping : List Entry)
      → ((b : ℕ) → 0 < held mapping b → pages' b ≡ pages b)
      → every (sound pages) mapping ≡ true
      → every (sound pages') mapping ≡ true
  unfolding held total every
  sound-same [] h v = refl
  sound-same (e ∷ mapping) h v =
      let here = (entry-same e (λ b more. h b (omega (arith, more)))).0 in
      let rest = sound-same mapping (λ b more. h b (omega (arith, more))) (ground (arith, v)) in
      rw (here, rest) (ground (arith, v))

  pub value-same :
      (mapping : List Entry) (key : ℕ) (e : Entry)
      → ((b : ℕ) → 0 < held mapping b → pages' b ≡ pages b)
      → get_elem? mapping key ≡ some e
      → entry_value pages' e ≡ entry_value pages e
  value-same mapping key e h found =
      (entry-same e (λ b more. h b (omega (arith, more, held-le mapping key e b found)))).1

-- the value at a key of a mapping where an entry has been set
pub value_of-set :
    (io : FileIo) (pages : ℕ → Bytes) (c : BlockController) (key : ℕ) (e : Entry) (k buffer : ℕ)
    → key < length io.mapping
    → ((b : ℕ) → 0 < held io.mapping b → pages b ≡ io.pages b)
    → value_of
        (record io {
          pages = pages;
          controller = c;
          buffer = buffer;
          mapping = set io.mapping key e;
        })
        k
      ≡ (if key == k then entry_value pages e else value_of io k)
unfolding value_of value_at
value_of-set io pages c key e k buffer inside h =
    ap (value_at pages) (get_elem?-set io.mapping key k e inside) ∙ elim (Bool-cases (key == k)) [
      | inl here ↦ rw here refl
      | inr other ↦ elim (Option-cases (get_elem? io.mapping k)) [
        | inl past ↦ rw (other, past) refl
        | inr (old, found) ↦ rw (other, found) (value-same io.pages pages io.mapping k old h found)
      ]
    ]

-- the value at a key where only pages that are not in use have changed
pub value_of-pages :
    (io : FileIo) (pages : ℕ → Bytes) (c : BlockController) (k : ℕ)
    → ((b : ℕ) → 0 < held io.mapping b → pages b ≡ io.pages b)
    → value_of (record io { pages = pages; controller = c }) k ≡ value_of io k
unfolding value_of value_at
value_of-pages io pages c k h = elim (Option-cases (get_elem? io.mapping k)) [
  | inl past ↦ rw past refl
  | inr (old, found) ↦ rw found (value-same io.pages pages io.mapping k old h found)
]
