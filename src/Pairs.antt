-- ===== src/Pairs.antt =====
-- AnnService/inc/Core/SearchResult.h: NodeDistPair, the element of the queues of a search.
use sptag.Base.{◌≡◌, Bool, true, false, arith, ltb}
use sptag.Base.Int.{ℤ, negsuc}
use sptag.Results.{Dist, max_dist}
use sptag.Order.{Ordered}

pub record NodeDistPair : Type 0 where
  pub node : ℤ
  pub distance : Dist

unfoldable pub less_pair : NodeDistPair → NodeDistPair → Bool
less_pair a b = ltb a.distance b.distance

pub less_pair_asymm : (a b : NodeDistPair) → less_pair a b ≡ true → less_pair b a ≡ false
unfolding less_pair
less_pair_asymm a b h = ground arith

pub less_pair_cotrans :
    (a b c : NodeDistPair) → less_pair b a ≡ false → less_pair c b ≡ false → less_pair c a ≡ false
unfolding less_pair
less_pair_cotrans a b c p q = ground arith

instance abbrev pub nearest_first : Ordered NodeDistPair
nearest_first = record {
  default = record { node = negsuc 0; distance = max_dist };
  less = less_pair;
  less_asymm = less_pair_asymm;
  less_cotrans = less_pair_cotrans;
}
