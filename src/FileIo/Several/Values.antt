-- ===== src/FileIo/Several/Values.antt =====
-- What `MultiGet` of AnnService/inc/Core/SPANN/ExtraFileController.h returns.
use mathlib.Core.Option as Option
use mathlib.Core.Option.{some_inj}
use mathlib.Core.List.{append-nil}
use sptag.Base.{
  ℕ, zero, suc, ◌-◌, ◌≤◌, ◌≡◌, refl, ap, sym, ◌∙◌, inl, inr, Bool, true, false, not, ◌||◌, List, [],
  ◌∷◌, ◌++◌, map, none, some, length, length-map, length-append, replicate, get_elem?,
  get_elem?-past, get_elem?-inside, ltb, arith, all_below, Option-cases, Bool-cases,
}
use sptag.Base.Sums.{total, every}
use sptag.Wire.{Bytes}
use sptag.Labels.{success}
use sptag.BlockPool.{Device}
use sptag.FileIo.{Entry, unmapped, unwritten, posting, FileIo, block_count, read_pages}
use sptag.FileIo.Valid.{sound, entry_value, value_at, value_of, IsValid}
use sptag.FileIo.Put.{sound-at}
use sptag.FileIo.Get.{sound-posting}
use sptag.FileIo.Several.{
  found_cells, request_count, read_values, read_several, multi_get, value_or_empty,
}

length-read_values :
    (pages : ℕ → Bytes) (es : List Entry) → length (read_values pages es) ≡ length es
unfolding read_values
length-read_values pages [] = refl
length-read_values pages (posting size bs ∷ es) = ap suc (length-read_values pages es)
length-read_values pages (unmapped ∷ es) = ap suc (length-read_values pages es)
length-read_values pages (unwritten ∷ es) = ap suc (length-read_values pages es)

length-found_cells :
    (mapping : List Entry) (keys : List ℕ) → length (found_cells mapping keys) ≤ length keys
unfolding found_cells
length-found_cells mapping [] = omega arith
length-found_cells mapping (key ∷ keys) = elim (Option-cases (get_elem? mapping key)) [
  | inl past ↦ rw (past, found_cells) (omega (arith, length-found_cells mapping keys))
  | inr (e, found) ↦ rw (found, found_cells) (omega (arith, length-found_cells mapping keys))
]

found_cells-skip :
    (mapping : List Entry) (before after : List ℕ) (past : ℕ)
    → get_elem? mapping past ≡ none
    → found_cells mapping (before ++ past ∷ after) ≡ found_cells mapping (before ++ after)
unfolding found_cells
found_cells-skip mapping [] after past h = rw (h, found_cells) refl
found_cells-skip mapping (key ∷ before) after past h = elim (Option-cases (get_elem? mapping key)) [
  | inl none_here ↦ rw (none_here, found_cells) (found_cells-skip mapping before after past h)
  | inr (e, found) ↦
      rw (found, found_cells) (ap (λ x. e ∷ x) (found_cells-skip mapping before after past h))
]

read_several-is :
    (device : Device) (pages : ℕ → Bytes) (es : List Entry) (values : List Bytes)
    → read_several device pages es ≡ some values
    → length values ≡ length es
unfolding read_several
read_several-is device pages es values h = elim (Option-cases (request_count es)) [
  | inl endless ↦ absurd (let never = simp (endless, read_several) at h in cc)
  | inr (n, run) ↦ elim (Bool-cases (ltb device.requests n || not (all_below n device.reads))) [
    | inl broken ↦ absurd (let never = simp (run, broken, read_several) at h in cc)
    | inr whole ↦
        let read = simp (run, whole, read_several) at h in
        ap length (sym (some_inj.0 read)) ∙ length-read_values pages es
  ]
]

replicate-snoc {ℓ} : {A : Type ℓ} (x : A) (n : ℕ) → replicate (suc n) x ≡ replicate n x ++ x ∷ []
replicate-snoc x zero = refl
replicate-snoc x (suc n) = ap (λ xs. x ∷ xs) (replicate-snoc x n)

pad-snoc :
    (values : List Bytes) (m : ℕ)
    → length values ≤ m
    → values ++ replicate (suc m - length values) []
      ≡ (values ++ replicate (m - length values) []) ++ [] ∷ []
pad-snoc [] m h =
    let one : suc m - length {A = Bytes} [] ≡ suc m = omega arith in
    let two : m - length {A = Bytes} [] ≡ m = omega arith in rw (one, two) (replicate-snoc [] m)
pad-snoc (v ∷ values) zero h = absurd (omega (arith, h))
pad-snoc (v ∷ values) (suc m) h =
    let one : suc (suc m) - length (v ∷ values) ≡ suc m - length values = omega arith in
    let two : suc m - length (v ∷ values) ≡ m - length values = omega arith in
    rw (one, two) (ap (λ x. v ∷ x) (pad-snoc values m (omega (arith, h))))

-- MultiGet of keys of which one is past the end of the mapping returns what it returns without
-- that key, with an empty value at the end: the values of the keys behind it are those of the
-- places before.
pub multi_get-past :
    (device : Device) (io : FileIo) (before after : List ℕ) (past : ℕ)
    → length io.mapping ≤ past
    → multi_get device io (before ++ past ∷ after) ≡ (
      (multi_get device io (before ++ after)).0,
      Option.map (λ values. values ++ [] ∷ []) (multi_get device io (before ++ after)).1,
    )
unfolding multi_get
multi_get-past device io before after past h =
    let skip = found_cells-skip io.mapping before after past (get_elem?-past io.mapping past h) in
    let longer : length (before ++ past ∷ after) ≡ suc (length (before ++ after)) =
      omega (arith, length-append before (past ∷ after), length-append before after) in
    elim (Option-cases (read_several device io.pages (found_cells io.mapping (before ++ after)))) [
      | inl broken ↦ rw (skip, broken, multi_get) refl
      | inr (values, run) ↦
          let size =
            read_several-is device io.pages (found_cells io.mapping (before ++ after)) values run in
          let few = length-found_cells io.mapping (before ++ after) in
          rw (skip, run, multi_get, longer)
            (ap (λ (x : List Bytes). (success, some x))
              (pad-snoc values (length (before ++ after)) (omega (arith, size, few))))
    ]

all_below-true : (n : ℕ) (p : ℕ → Bool) → ((i : ℕ) → p i ≡ true) → all_below n p ≡ true
all_below-true zero p all = refl
all_below-true (suc n) p all = ground (arith, all n, all_below-true n p all)

value_or_empty-unmapped :
    (io : FileIo) (key : ℕ) → get_elem? io.mapping key ≡ some unmapped → value_or_empty io key ≡ []
unfolding value_or_empty value_of value_at entry_value
value_or_empty-unmapped io key found = rw (found, value_or_empty, value_of, value_at) refl

value_or_empty-posting :
    (io : FileIo) (key size : ℕ) (bs : List ℕ)
    → get_elem? io.mapping key ≡ some (posting size bs)
    → value_or_empty io key ≡ read_pages io.pages bs size
unfolding value_or_empty value_of value_at entry_value
value_or_empty-posting io key size bs found = rw (found, value_or_empty, value_of, value_at) refl

found_cells-values :
    (io : FileIo) (keys : List ℕ)
    → IsValid io
    → every (λ key. ltb key (length io.mapping)) keys ≡ true
    → (request_count (found_cells io.mapping keys)
        ≡ some (total (λ key. block_count (length (value_or_empty io key))) keys))
      × (read_values io.pages (found_cells io.mapping keys) ≡ map (value_or_empty io) keys)
unfolding found_cells request_count read_values every total sound block_count
found_cells-values io [] v h = (refl, refl)
found_cells-values io (key ∷ keys) v h =
    let (count, read) = found_cells-values io keys v (ground (arith, h)) in
    elim (Option-cases (get_elem? io.mapping key)) [
      | inl past ↦
          let (e, found) = get_elem?-inside io.mapping key (ground (arith, h)) in
          absurd (let never = sym past ∙ found in cc)
      | inr (unmapped, found) ↦
          let here = value_or_empty-unmapped io key found in
          rw (found, found_cells)
            (count ∙ ap some (rw here (omega arith)), ap (λ x. [] ∷ x) read ∙ rw here refl)
      | inr (unwritten, found) ↦ absurd (let never = sound-at io key unwritten v found in cc)
      | inr (posting size bs, found) ↦
          let (wide, whole, long) =
            sound-posting io.pages size bs (sound-at io key (posting size bs) v found) in
          let here = value_or_empty-posting io key size bs found in
          rw (found, found_cells) (rw (count, here, long) refl, rw (whole, read, here) refl)
    ]

-- MultiGet of keys that the mapping has, with a request for each of their blocks and reads that
-- complete, returns Success on a valid posting file with the values of the keys in their order,
-- no bytes standing for a key without a value.
pub multi_get-values :
    (device : Device) (io : FileIo) (keys : List ℕ)
    → IsValid io
    → every (λ key. ltb key (length io.mapping)) keys ≡ true
    → total (λ key. block_count (length (value_or_empty io key))) keys ≤ device.requests
    → ((i : ℕ) → device.reads i ≡ true)
    → multi_get device io keys ≡ (success, some (map (value_or_empty io) keys))
unfolding multi_get read_several
multi_get-values device io keys v inside enough all =
    let (count, read) = found_cells-values io keys v inside in
    let n = total (λ key. block_count (length (value_or_empty io key))) keys in
    let complete : (ltb device.requests n || not (all_below n device.reads)) ≡ false =
      ground (arith, enough, all_below-true n device.reads all) in
    let none_left : length keys - length (map (value_or_empty io) keys) ≡ 0 =
      omega (arith, length-map (value_or_empty io) keys) in
    let run : read_several device io.pages (found_cells io.mapping keys)
        ≡ some (map (value_or_empty io) keys) =
      rw (count, complete, read) refl in
    rw (run, multi_get, none_left)
      (ap (λ (x : List Bytes). (success, some x)) (append-nil (map (value_or_empty io) keys)))
