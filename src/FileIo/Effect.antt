-- ===== src/FileIo/Effect.antt =====
-- What a call of AnnService/inc/Core/SPANN/ExtraFileController.h does to the map.
use sptag.Base.{
  ℕ, ◌≤◌, ◌<◌, ◌≡◌, refl, ap, sym, ◌∙◌, inl, inr, Bool, true, false, List, Option, some, length,
  get_elem?, ltb, ◌==◌, if◌then◌else◌, arith, Bool-cases, all_below, get_elem?-past,
}
use sptag.Wire.{Bytes}
use sptag.Labels.{count, ErrorCode, success}
use sptag.BlockPool.{Device}
use sptag.FileIo.{FileIo, write_pages, write_blocks}
use sptag.FileIo.Valid.{value_of, IsValid}

unfoldable pub is_success : ErrorCode → Bool
is_success success = true
is_success _ = false

is_success-success : (code : ErrorCode) → is_success code ≡ true → code ≡ success
unfolding is_success
is_success-success success h = refl
is_success-success _ h = absurd (let never = h in cc)

-- Blocks that are not in the queue are left alone, where a released block waits for the next checkpoint.
pub record Keeps (io after : FileIo) : Type 0 where
  pub limit : after.block_limit ≡ io.block_limit
  pub flag : after.controller.disable_checkpoint ≡ io.controller.disable_checkpoint
  pub total : io.controller.total_allocated_blocks ≤ after.controller.total_allocated_blocks
  pub safe :
      io.controller.disable_checkpoint ≡ false
      → (b : ℕ) → b < io.controller.total_allocated_blocks
      → count b io.controller.block_addresses ≡ 0
      → (after.pages b ≡ io.pages b) × (count b after.controller.block_addresses ≡ 0)

-- The value of one key changes, or none does; `Ready` is enough for success.
pub record Effect (io : FileIo) (key : ℕ) (Ready : Type 0) (new : Option Bytes)
    (out : Option (ErrorCode × FileIo)) : Type 0 where
  pub code : ErrorCode
  pub after : FileIo
  pub ran : out ≡ some (code, after)
  pub valid : IsValid after
  pub keeps : Keeps io after
  pub ready : Ready → is_success code ≡ true
  pub others : (k : ℕ) → (key == k) ≡ false → value_of after k ≡ value_of io k
  pub here : value_of after key ≡ (if is_success code then new else value_of io key)

pub write_blocks-some :
    (device : Device) (pages : ℕ → Bytes) (bs : List ℕ) (value : Bytes)
    → length bs ≤ device.requests
    → write_blocks device pages bs value
      ≡ some (all_below (length bs) device.writes, write_pages device 0 bs value pages)
unfolding write_blocks
write_blocks-some device pages bs value enough =
    let room : ltb device.requests (length bs) ≡ false = ground (arith, enough) in rw room refl

pub get_elem?-below {ℓ} :
    {A : Type ℓ} (xs : List A) (i : ℕ) (x : A) → get_elem? xs i ≡ some x → i < length xs
get_elem?-below xs i x h = elim (Bool-cases (ltb i (length xs))) [
  | inl e ↦ ground (arith, e)
  | inr e ↦ absurd (let never = sym (get_elem?-past xs i (ground (arith, e))) ∙ h in cc)
]

pub ready-Effect :
    {io : FileIo} {key : ℕ} {Ready Less : Type 0} {new : Option Bytes}
    {out : Option (ErrorCode × FileIo)}
    → (Less → Ready)
    → Effect io key Ready new out
    → Effect io key Less new out
ready-Effect less f = record {
  code = f.code;
  after = f.after;
  ran = f.ran;
  valid = f.valid;
  keeps = f.keeps;
  ready = λ h. f.ready (less h);
  others = f.others;
  here = f.here;
}

-- a call that is ready
pub Effect-success :
    {io : FileIo} {key : ℕ} {Ready : Type 0} {new : Option Bytes}
    {out : Option (ErrorCode × FileIo)}
    → Effect io key Ready new out
    → Ready
    → (after : FileIo) × (out ≡ some (success, after))
      × IsValid after
      × (value_of after key ≡ new)
      × ((k : ℕ) → (key == k) ≡ false → value_of after k ≡ value_of io k)
Effect-success f h =
    let yes = f.ready h in
    let code : f.code ≡ success = is_success-success f.code yes in
    (
      f.after,
      f.ran ∙ ap (λ (x : ErrorCode). some (x, f.after)) code,
      f.valid,
      f.here ∙ rw yes refl,
      f.others,
    )
