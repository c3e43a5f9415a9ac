-- ===== src/Visited/Marks.antt =====
-- `CheckAndSet` of OptHashPosVector beside the insertion into a set of ids.
use sptag.Base.{
  ℕ, zero, suc, ◌+◌, ◌<◌, ◌≡◌, ◌≢◌, ◌∙◌, ◌⊎◌, refl, sym, inl, inr, Bool, true, false, none, some,
  arith, ◌==◌, ==_iff, ◌||◌,
}
use sptag.Visited.{
  Visited, Probe, placed, hit, full, insert_in, check_and_set_entry, check_and_set, contains,
}
use sptag.Visited.Lookup.{Ends, insert_in-Ends}
use sptag.Visited.Growth.{IsValid, double_size-keeps}

-- a call that returned `found` and the new object: a set insertion
pub record Marks (v : Visited) (x : ℕ) (r : Bool × Visited) : Type 0 where
  pub found : r.0 ≡ contains x v.table
  pub valid : IsValid r.1
  pub entries : (y : ℕ) → 0 < y → contains y r.1.table ≡ (x == y || contains y v.table)

Ends-Marks :
    (v : Visited) (x : ℕ) (p : Probe) (s : Bool) (fuel : ℕ)
    → 0 < x
    → IsValid v
    → Ends v.pool_size v.table x v.second_hash (p, s)
    → insert_in v.table v.pool_size x v.second_hash ≡ some (p, s)
    → p ≢ full
    → (r : Bool × Visited) × (check_and_set_entry (suc fuel) v x ≡ some r) × Marks v x r
unfolding check_and_set_entry
Ends-Marks v x (placed t) s fuel pos valid (fills, kept) run room = (
  (false, record v { table = t; second_hash = s }),
  rw run,
  record {
    found = sym fills.fresh;
    valid = record { table = fills.valid; clean = λ h. (kept h).1 ∙ valid.clean (kept h).0 };
    entries = fills.entries;
  },
)
Ends-Marks v x hit s fuel pos valid (there, kept) run room = (
  (true, record v { second_hash = s }),
  rw run,
  record {
    found = sym there;
    valid = record { table = valid.table; clean = λ h. valid.clean (kept h) };
    entries = λ y p. ground (arith, there, ==_iff x y);
  },
)
Ends-Marks v x full s fuel pos valid ends run room = absurd (room refl)

grown-Marks :
    (v : Visited) (x : ℕ) (s : Bool) (fuel : ℕ)
    → IsValid v
    → insert_in v.table v.pool_size x v.second_hash ≡ some (full, s)
    → s ≡ true
    → 0 < x
    → ((w : Visited)
        → IsValid w
        → (check_and_set_entry fuel w x ≡ none)
          ⊎ ((r : Bool × Visited) × (check_and_set_entry fuel w x ≡ some r) × Marks w x r))
    → (check_and_set_entry (suc fuel) v x ≡ none)
      ⊎ ((r : Bool × Visited) × (check_and_set_entry (suc fuel) v x ≡ some r) × Marks v x r)
unfolding check_and_set_entry
grown-Marks v x s fuel valid run on pos ih =
    let u = record v { second_hash = s } in
    let still : IsValid u = record {
      table = valid.table;
      clean = λ h. absurd (ground (arith, h, on));
    } in
    elim (double_size-keeps u still) [
      | inl e ↦ inl (rw (run, e))
      | inr (w, e, w_valid, same, wider, more) ↦ elim (ih w w_valid) [
        | inl none_yet ↦ inl (rw (run, e) none_yet)
        | inr (r, returns, marks) ↦ inr (
          r,
          rw (run, e) returns,
          record {
            found = marks.found ∙ same x pos;
            valid = marks.valid;
            entries = λ y p. rw (← same y p) (marks.entries y p);
          },
        )
      ]
    ]

check_and_set_entry-Marks :
    (fuel : ℕ) (v : Visited) (x : ℕ)
    → 0 < x
    → IsValid v
    → (check_and_set_entry fuel v x ≡ none)
      ⊎ ((r : Bool × Visited) × (check_and_set_entry fuel v x ≡ some r) × Marks v x r)
unfolding check_and_set_entry
check_and_set_entry-Marks zero v x pos valid = inl refl
check_and_set_entry-Marks (suc fuel) v x pos valid =
    let ((p, s), run, ends) = insert_in-Ends v.pool_size v.table valid.table x pos v.second_hash in
    by_end (λ w u. check_and_set_entry-Marks fuel w x pos u) p s run ends
  where
    by_end :
        ((w : Visited)
          → IsValid w
          → (check_and_set_entry fuel w x ≡ none)
            ⊎ ((r : Bool × Visited) × (check_and_set_entry fuel w x ≡ some r) × Marks w x r))
        → (p : Probe) (s : Bool) → insert_in v.table v.pool_size x v.second_hash ≡ some (p, s)
        → Ends v.pool_size v.table x v.second_hash (p, s)
        → (check_and_set_entry (suc fuel) v x ≡ none)
          ⊎ ((r : Bool × Visited) × (check_and_set_entry (suc fuel) v x ≡ some r) × Marks v x r)
    by_end ih (placed t) s run ends =
        inr (Ends-Marks v x (placed t) s fuel pos valid ends run (λ e. cc))
    by_end ih hit s run ends = inr (Ends-Marks v x hit s fuel pos valid ends run (λ e. cc))
    by_end ih full s run ends = grown-Marks v x s fuel valid run ends.1 pos ih

-- However often the table doubles, a call of CheckAndSet on a well-formed object that does not
-- fail within the fuel tells whether the object held the id, and leaves a well-formed object that
-- holds that id and what it held.
pub check_and_set-Marks :
    (fuel : ℕ) (v : Visited) (idx : ℕ)
    → IsValid v
    → (check_and_set fuel v idx ≡ none)
      ⊎ ((r : Bool × Visited) × (check_and_set fuel v idx ≡ some r) × Marks v (idx + 1) r)
unfolding check_and_set
check_and_set-Marks fuel v idx valid =
    check_and_set_entry-Marks (suc fuel) v (idx + 1) (omega arith) valid

-- On a well-formed object that holds the id or has a probed slot free, CheckAndSet returns
-- whether the object held the id; the object stays well-formed and then holds that id and what it
-- held.
pub check_and_set-room :
    (fuel : ℕ) (v : Visited) (idx : ℕ)
    → IsValid v
    → ((s : Bool)
        → contains (idx + 1) v.table ≡ false
        → insert_in v.table v.pool_size (idx + 1) v.second_hash ≢ some (full, s))
    → (r : Bool × Visited) × (check_and_set fuel v idx ≡ some r) × Marks v (idx + 1) r
unfolding check_and_set
check_and_set-room fuel v idx valid room =
    let ((p, s), run, ends) =
      insert_in-Ends v.pool_size v.table valid.table (idx + 1) (omega arith) v.second_hash in
    Ends-Marks v (idx + 1) p s fuel (omega arith) valid ends run (not_full p s run ends)
  where
    not_full :
        (p : Probe) (s : Bool)
        → insert_in v.table v.pool_size (idx + 1) v.second_hash ≡ some (p, s)
        → Ends v.pool_size v.table (idx + 1) v.second_hash (p, s)
        → p ≢ full
    not_full (placed t) s run ends = λ e. cc
    not_full hit s run ends = λ e. cc
    not_full full s run ends = λ e. room s ends.0 run
