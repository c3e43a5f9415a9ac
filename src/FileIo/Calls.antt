-- ===== src/FileIo/Calls.antt =====
-- Calls of AnnService/inc/Core/SPANN/ExtraFileController.h one after the other, and the map that they promise.
use mathlib.Core.Option as Option
use sptag.Base.{
  ℕ, suc, ◌≡◌, refl, ap, ◌∙◌, inl, inr, Bool, true, ◌&&◌, List, [], ◌∷◌, ◌++◌, Option, none, some,
  leb, ◌==◌, if◌then◌else◌, arith, Bool-cases, ◌>>=◌, subst,
}
use sptag.Wire.{Bytes}
use sptag.Labels.{ErrorCode}
use sptag.BlockPool.{Device}
use sptag.FileIo.{FileIo, put, merge, delete}
use sptag.FileIo.Valid.{value_of, IsValid}
use sptag.FileIo.Effect.{Effect, ready-Effect, Keeps, is_success}
use sptag.FileIo.Put.{same-Keeps, put-Effect}
use sptag.FileIo.Merge.{merge-Effect}
use sptag.FileIo.Get.{delete-Effect}

pub data Call : Type 0 where
  put_call : Device → ℕ → Bytes → Call
  merge_call : Device → ℕ → Bytes → Call
  delete_call : ℕ → Call

pub call : FileIo → Call → Option (ErrorCode × FileIo)
call io (Call.put_call device key value) = put device io key value
call io (Call.merge_call device key value) = merge device io key value
call io (Call.delete_call key) = delete io key

pub calls : List Call → FileIo → Option (List ErrorCode × FileIo)
calls [] io = some ([], io)
calls (c ∷ cs) io = do
  (code, next) ← call io c
  (codes, after) ← calls cs next
  some (code ∷ codes, after)

pub key_of : Call → ℕ
key_of (Call.put_call device key value) = key
key_of (Call.merge_call device key value) = key
key_of (Call.delete_call key) = key

-- what a call that succeeds makes of the value
pub meaning : Call → Option Bytes → Option Bytes
meaning (Call.put_call device key value) old = some value
meaning (Call.merge_call device key value) old = Option.map (λ x. x ++ value) old
meaning (Call.delete_call key) old = none

-- whether `reqs` has a request for each block of a posting
unfoldable pub suffices : ℕ → List Call → Bool
suffices limit [] = true
suffices limit (Call.put_call device key value ∷ cs) =
    leb limit (suc device.requests) && suffices limit cs
suffices limit (Call.merge_call device key value ∷ cs) =
    leb limit (suc device.requests) && suffices limit cs
suffices limit (Call.delete_call key ∷ cs) = suffices limit cs

unfoldable pub step : Call → ErrorCode → (ℕ → Option Bytes) → ℕ → Option Bytes
step c code values k = if key_of c == k && is_success code then meaning c (values k) else values k

-- the map after calls with these results
pub replay : List Call → List ErrorCode → (ℕ → Option Bytes) → ℕ → Option Bytes
replay (c ∷ cs) (code ∷ codes) values = replay cs codes (step c code values)
replay _ _ values = values

replay-same :
    (cs : List Call) (codes : List ErrorCode) (f g : ℕ → Option Bytes)
    → ((k : ℕ) → f k ≡ g k)
    → (k : ℕ) → replay cs codes f k ≡ replay cs codes g k
unfolding replay step
replay-same [] codes f g h k = h k
replay-same (c ∷ cs) [] f g h k = h k
replay-same (c ∷ cs) (code ∷ codes) f g h k =
    replay-same cs codes (step c code f) (step c code g) (λ j. rw (h j) refl) k

-- A run ends, and the map is what the results promise.
pub record Ran (cs : List Call) (io : FileIo) (out : Option (List ErrorCode × FileIo))
    : Type 0 where
  pub codes : List ErrorCode
  pub after : FileIo
  pub ran : out ≡ some (codes, after)
  pub valid : IsValid after
  pub keeps : Keeps io after
  pub values : (k : ℕ) → value_of after k ≡ replay cs codes (value_of io) k

call-Effect :
    (io : FileIo) (c : Call) (cs : List Call)
    → IsValid io
    → suffices io.block_limit (c ∷ cs) ≡ true
    → Effect io (key_of c) ⊥ (meaning c (value_of io (key_of c))) (call io c)
unfolding call key_of meaning suffices
call-Effect io (Call.put_call device key value) cs v h =
    ready-Effect absurd (put-Effect device io key value v (ground (arith, h)))
call-Effect io (Call.merge_call device key value) cs v h =
    ready-Effect absurd (merge-Effect device io key value v (ground (arith, h)))
call-Effect io (Call.delete_call key) cs v h = ready-Effect absurd (delete-Effect io key v)

suffices-rest :
    (limit : ℕ) (c : Call) (cs : List Call)
    → suffices limit (c ∷ cs) ≡ true
    → suffices limit cs ≡ true
unfolding suffices
suffices-rest limit (Call.put_call device key value) cs h = ground (arith, h)
suffices-rest limit (Call.merge_call device key value) cs h = ground (arith, h)
suffices-rest limit (Call.delete_call key) cs h = h

chain-Keeps : {io mid after : FileIo} → Keeps io mid → Keeps mid after → Keeps io after
chain-Keeps one two =
    let first = one.total in
    let second = two.total in
    record {
      limit = two.limit ∙ one.limit;
      flag = two.flag ∙ one.flag;
      total = omega (arith, first, second);
      safe = λ later b low none_free.
          let (page, queue) = one.safe later b low none_free in
          let (page', queue') = two.safe (one.flag ∙ later) b (omega (arith, low, first)) queue in
          (page' ∙ page, queue');
    }

step-Effect :
    (io : FileIo) (c : Call) {out : Option (ErrorCode × FileIo)}
    → (f : Effect io (key_of c) ⊥ (meaning c (value_of io (key_of c))) out) → (k : ℕ)
    → value_of f.after k ≡ step c f.code (value_of io) k
unfolding step
step-Effect io c f k = elim (Bool-cases (key_of c == k)) [
  | inr other ↦ f.others k other ∙ rw other refl
  | inl same ↦
      let e : key_of c ≡ k = ground (arith, same) in
      subst
        (λ j.
          value_of f.after j
          ≡ (if is_success f.code then meaning c (value_of io j) else value_of io j))
        e f.here
      ∙ rw same refl
]

-- Calls of Put, Merge and Delete one after the other, from a valid posting file and with a
-- request for each block of a posting, all return, whatever fails on the device in each: the file
-- stays valid, and the value of each key is what the calls that returned Success make of it, the
-- others changing nothing; blocks that were not free stay as they were where checkpoints are on.
pub calls-Ran :
    (cs : List Call) (io : FileIo)
    → IsValid io
    → suffices io.block_limit cs ≡ true
    → Ran cs io (calls cs io)
unfolding calls replay
calls-Ran [] io v h = record {
  codes = [];
  after = io;
  ran = refl;
  valid = v;
  keeps = same-Keeps io;
  values = λ k. refl;
}
calls-Ran (c ∷ cs) io v h =
    let f = call-Effect io c cs v h in
    let keeps = f.keeps in
    let rest = suffices-rest io.block_limit c cs h in
    let later = calls-Ran cs f.after f.valid (ap (λ n. suffices n cs) keeps.limit ∙ rest) in
    rw (f.ran, later.ran)
      (record {
        codes = f.code ∷ later.codes;
        after = later.after;
        ran = refl;
        valid = later.valid;
        keeps = chain-Keeps keeps later.keeps;
        values = λ k.
            later.values k
            ∙ replay-same cs later.codes (value_of f.after) (step c f.code (value_of io))
                (step-Effect io c f) k;
      })
