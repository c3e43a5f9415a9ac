-- ===== src/Connections/Claim.antt =====
-- The loop of `AddConnection` in ConnectionManager.cpp.
use sptag.Base.{
  ℕ, zero, suc, ◌+◌, ◌-◌, ◌^◌, ◌%◌, ◌<◌, ◌≡◌, refl, ◌∙◌, true, false, some, arith, ◌==◌, get_elem?,
  set, length, ◌⊎◌, inl, inr, get_elem?-inside, Bool-cases,
}
use sptag.Connections.{Slot, ConnectionManager, pool_size, position, claim_loop, claim_fuel}
use sptag.Connections.Pool.{free_slot, IsValid}

-- The loop ends at an id of a free slot that is `d` ids away at most.
pub record Claimed (m : ConnectionManager) (r : ℕ) (t : ConnectionManager) : Type 0 where
  pub proper : 0 < r
  pub next : t.next_connection_id < 2 ^ 32
  pub empty_slot : Slot
  pub found : get_elem? m.connections (position r) ≡ some empty_slot
  pub is_free : empty_slot.is_empty ≡ true
  pub claimed :
      t.connections ≡ set m.connections (position r) (record empty_slot { is_empty = false })
  pub same_count : t.connection_count ≡ m.connection_count

abbrev pub fetched : ConnectionManager → ConnectionManager
fetched m = record m { next_connection_id = (m.next_connection_id + 1) % 2 ^ 32 }

abbrev pub Claims : ℕ → ConnectionManager → Type 0
Claims fuel m =
    (r : ℕ) × ((t : ConnectionManager) × ((claim_loop fuel m ≡ some (r, t)) × Claimed m r t))

claim-here :
    (fuel : ℕ) (m : ConnectionManager) (s : Slot)
    → 0 < m.next_connection_id
    → get_elem? m.connections (position m.next_connection_id) ≡ some s
    → s.is_empty ≡ true
    → Claims (suc fuel) m
unfolding claim_loop
claim-here fuel m s pos h e =
    let ss = set m.connections (position m.next_connection_id) (record s { is_empty = false }) in
    (
      m.next_connection_id,
      (
        record (fetched m) { connections = ss },
        (
          ground arith,
          record {
            proper = pos;
            next = omega arith;
            empty_slot = s;
            found = h;
            is_free = e;
            claimed = refl;
            same_count = refl;
          },
        ),
      ),
    )

claim-pass :
    (fuel : ℕ) (m : ConnectionManager) (s : Slot)
    → m.connection_count < pool_size
    → get_elem? m.connections (position m.next_connection_id) ≡ some s
    → (m.next_connection_id ≡ 0) ⊎ (s.is_empty ≡ false)
    → claim_loop (suc fuel) m ≡ claim_loop fuel (fetched m)
unfolding claim_loop
claim-pass fuel m s few h (inl z) = ground arith
claim-pass fuel m s few h (inr e) = ground arith

claim-later :
    (fuel : ℕ) (m : ConnectionManager)
    → claim_loop (suc fuel) m ≡ claim_loop fuel (fetched m)
    → Claims fuel (fetched m)
    → Claims (suc fuel) m
claim-later fuel m e (r, (t, (h, c))) = (
  r,
  (
    t,
    (
      e ∙ h,
      record {
        proper = c.proper;
        next = c.next;
        empty_slot = c.empty_slot;
        found = c.found;
        is_free = c.is_free;
        claimed = c.claimed;
        same_count = c.same_count;
      },
    ),
  ),
)

-- A free slot at `p` is `d` ids away, and that id is not the invalid one.
claim_loop-Claims :
    (d fuel : ℕ) (m : ConnectionManager) (p : ℕ) (s : Slot)
    → d < fuel
    → length m.connections ≡ pool_size
    → m.connection_count < pool_size
    → get_elem? m.connections p ≡ some s
    → s.is_empty ≡ true
    → (m.next_connection_id + d) % 256 ≡ p
    → 0 < (m.next_connection_id + d) % 2 ^ 32
    → Claims fuel m
unfolding position
claim_loop-Claims d zero m p s enough w few f e at ok = absurd (omega arith)
claim_loop-Claims zero (suc fuel) m p s enough w few f e at ok =
    let same : m.next_connection_id % 256 ≡ p = omega arith in
    claim-here fuel m s (ground arith) (rw same f) e
claim_loop-Claims (suc d) (suc fuel) m p s enough w few f e at ok =
    let (x, h) = get_elem?-inside m.connections (m.next_connection_id % 256) (omega arith) in
    let rest =
      claim_loop-Claims d fuel (fetched m) p s (omega arith) w few f e (omega arith)
        (omega arith) in
    elim (Bool-cases (m.next_connection_id == 0)) [
      | inl z ↦ claim-later fuel m (claim-pass fuel m x few h (inl (ground arith))) rest
      | inr nz ↦ elim (Bool-cases x.is_empty) [
        | inl here ↦ claim-here fuel m x (ground arith) h here
        | inr full ↦ claim-later fuel m (claim-pass fuel m x few h (inr full)) rest
      ]
    ]

-- With a slot free, the fuel of the loop is enough.
pub claims :
    (m : ConnectionManager) → IsValid m → m.connection_count < pool_size → Claims claim_fuel m
claims m v few =
    let (p, (inside, (s, (f, e)))) = free_slot m.connections (ground (arith, v.width, v.counted)) in
    let d = (p + 256 - m.next_connection_id % 256) % 256 in
    let below : p < 256 = omega (arith, v.width) in
    elim (Bool-cases ((m.next_connection_id + d) % 2 ^ 32 == 0)) [
      | inl z ↦
          claim_loop-Claims (d + 256) claim_fuel m p s (omega arith) v.width few f e (omega arith)
            (ground arith)
      | inr nz ↦
          claim_loop-Claims d claim_fuel m p s (omega arith) v.width few f e (omega arith)
            (ground arith)
    ]
