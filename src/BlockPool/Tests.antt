-- ===== src/BlockPool/Tests.antt =====
-- Blocks taken from a pool and given back.
use sptag.Base.{◌≡◌, ◌+◌, refl, sym, ◌∙◌, ap, true, [], ◌∷◌, some, arith, subst}
use sptag.Labels.{count, past_end, at, put}
use sptag.Labels.LabelSet.{reset, invalid_id}
use sptag.BlockPool.{
  BlockController, get_blocks, needs_expansion, take_blocks, try_pop, release_blocks,
}
use sptag.BlockPool.Valid.{IsValid, EnoughBlocks, lose-IsValid}
use sptag.BlockPool.Take.{Got, Got-IsValid}
use sptag.BlockPool.Expand.{get_blocks-Got}
use sptag.BlockPool.Release.{Released, release_blocks-Released}
use sptag.BlockPool.Sample.{ready_device, labels, controller, four_free, four_free-IsValid}

get_blocks-Got_example :
    Got 5 four_free
      (λ b. 0)
      (EnoughBlocks ready_device four_free 5)
      (get_blocks ready_device four_free 5)
get_blocks-Got_example = get_blocks-Got ready_device four_free (λ b. 0) 5 four_free-IsValid

abbrev two_left : BlockController
two_left = controller (2 ∷ 3 ∷ []) [] (labels 2 (255 ∷ 255 ∷ 1 ∷ 1 ∷ [])) 4

take_two : get_blocks ready_device four_free 2 ≡ some (true, 0 ∷ 1 ∷ [], two_left)
unfolding get_blocks needs_expansion take_blocks try_pop reset invalid_id past_end at put
take_two = refl

two_left-IsValid : IsValid two_left (λ b. 0 + count b (0 ∷ 1 ∷ []))
two_left-IsValid =
    let got = get_blocks-Got ready_device four_free (λ b. 0) 2 four_free-IsValid in
    let same = sym got.ran ∙ take_two in
    let blocks : got.blocks ≡ 0 ∷ 1 ∷ [] = cc in
    let after : got.after ≡ two_left = cc in
    subst (λ c. IsValid c (λ b. 0 + count b (0 ∷ 1 ∷ []))) after
      (lose-IsValid (Got-IsValid four_free-IsValid got) (λ b. omega (arith, ap (count b) blocks)))

release_blocks-Released_example :
    Released (0 ∷ 1 ∷ []) two_left (λ b. 0) (release_blocks (0 ∷ 1 ∷ []) two_left)
release_blocks-Released_example =
    release_blocks-Released (0 ∷ 1 ∷ []) two_left (λ b. 0) two_left-IsValid
