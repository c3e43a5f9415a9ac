-- ===== src/WorkSpace/Tests.antt =====
-- The work space of a small search.
use sptag.Base.{◌≡◌, some, arith}
use sptag.WorkSpace.{WorkSpace, reset}
use sptag.WorkSpace.Reset.{IsFresh, reset-IsFresh, initialize-IsFresh}

reset-IsFresh_example :
    let w = (initialize-IsFresh (λ i. i) 16 1 (omega arith)).0 in
    (t : WorkSpace) × (reset (λ i. i) w 32 5 ≡ some t) × IsFresh 32 5 t
reset-IsFresh_example =
    reset-IsFresh (λ i. i) (initialize-IsFresh (λ i. i) 16 1 (omega arith)).0 32 5
      (initialize-IsFresh (λ i. i) 16 1 (omega arith)).2.valid (omega arith)
