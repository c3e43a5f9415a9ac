-- ===== src/Bkt/Query.antt =====
-- `Search`, `SearchIterative` and the functions they are dispatched to, of
-- AnnService/src/Core/BKT/BKTIndex.cpp.
use sptag.Base.{
  ℕ, zero, suc, ◌+◌, Bool, true, false, not, ◌&&◌, ◌||◌, Option, none, some, length, ◌==◌,
  if◌then◌else◌,
}
use sptag.Base.Int.{ℤ, pos, negsuc, ltb_ℤ}
use sptag.Results.{Dist, QueryResultSet, add_point}
use sptag.Pairs.{NodeDistPair, nearest_first}
use sptag.Outcome.{Outcome, done, out_of_fuel, checked, at, ◌>>=◌}
use sptag.Bkt.{Index}

-- the functions that a search is dispatched to, for one query
pub record Policy : Type 0 where
  -- `notDeleted(m_deletedID, node)`
  pub not_deleted : ℤ → Bool
  -- `checkFilter(m_pMetadata, node, filterFunc)`
  pub check_filter : ℤ → Bool
  -- `CheckDup` for `true`, `NeverDup` for `false`
  pub search_duplicated : Bool

-- `SearchIndex` takes the policy from three flags; `contains` is that of `m_deletedID`, `deleted_count`
-- its `Count`, and `filter` is what `CheckFilter` finds, or `none` without a `filterFunc`.
pub dispatch : (ℤ → Bool) → ℕ → Bool → Bool → Option (ℤ → Bool) → Policy
dispatch contains deleted_count search_deleted search_duplicated filter = record {
  not_deleted =
      if deleted_count == 0 || search_deleted then (λ v. true) else (λ v. not (contains v));
  check_filter = elim filter [ none ↦ (λ v. true) | some f ↦ f ];
  search_duplicated = search_duplicated;
}

pub live : Policy → ℤ → Bool
live p v = p.not_deleted v && p.check_filter v

-- `-childStart`, where it is positive
unfoldable pub negated : ℤ → ℕ
negated (pos n) = 0
negated (negsuc n) = suc n

module _ (policy : Policy) where
  -- `CheckDup` and `NeverDup`: whether the loop over the duplicates ends
  unfoldable pub is_dup : QueryResultSet → ℤ → Dist → Outcome (Bool × QueryResultSet)
  is_dup q v dist = do
    (added, q) ← checked (add_point q v dist)
    done (if policy.search_duplicated then not added else true, q)

  -- the guarded call of the branch without duplicates
  unfoldable pub add_live : QueryResultSet → ℤ → Dist → Outcome QueryResultSet
  add_live q v dist =
      let add : Outcome QueryResultSet = do (_, q) ← checked (add_point q v dist); done q
      in if live policy v then add else done q

  -- the body of the loop over the duplicates up to its `break`
  unfoldable pub consider : QueryResultSet → ℤ → Dist → Outcome (Bool × QueryResultSet)
  consider q v dist = if live policy v then is_dup q v dist else done (false, q)

  module _ (index : Index) where
    -- the `do` loop over the duplicates; `i` is 0 for every start that is not positive
    unfoldable pub offer_dups : ℕ → QueryResultSet → ℤ → ℕ → ℤ → Dist → Outcome QueryResultSet
    offer_dups zero q v i last dist = out_of_fuel
    offer_dups (suc fuel) q v i last dist = do
      (stop, q) ← consider q v dist
      let next : Outcome QueryResultSet = do
        node ← at index.tree_roots (pos i)
        let rest = offer_dups fuel q node.centerid (i + 1) last dist
        if ltb_ℤ (pos i) last then rest else done q
      if stop || i == 0 then done q else next

    -- the branch for a node whose distance is not above the worst result
    unfoldable pub offer : QueryResultSet → NodeDistPair → ℤ → Outcome QueryResultSet
    offer q gnode (pos check_node) = add_live q gnode.node gnode.distance
    offer q gnode (negsuc zero) = add_live q gnode.node gnode.distance
    offer q gnode (negsuc (suc t)) = do
      tnode ← at index.tree_roots (pos t)
      offer_dups (length index.tree_roots + 1) q gnode.node (negated tnode.child_start)
          tnode.child_end gnode.distance
